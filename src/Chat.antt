-- ===== src/Chat.antt =====
-- Direct chat: src/cywl_oopz/features/chat/.
pub mod RateLimit
pub mod Leases
pub mod History
pub mod Trimming
