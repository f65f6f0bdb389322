-- ===== src/VoiceLease.antt =====
-- The one owner of the voice backend: src/cywl_oopz/integrations/oopz/voice_lease.py.
pub mod Manager
pub mod Tasks
pub mod Exclusive
pub mod Owners
pub mod Silence
pub mod Closed
