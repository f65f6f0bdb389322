-- ===== src/Audio.antt =====
-- The shared PCM audio path: src/cywl_oopz/features/audio/.
pub mod SourceQueue
pub mod Delivery
pub mod Slices
pub mod Ledger
