-- ===== src/Audio/Ledger.antt =====
-- The playout ledger of features/audio/ledger.py.
pub mod Values
pub mod Registering
pub mod Reconciling
pub mod Cursors
pub mod Remixing
pub mod Tracked
pub mod Chained
pub mod Sound
pub mod Registered
pub mod Marked
pub mod Progress
pub mod Reconciled
pub mod Calls
pub mod Frames
pub mod Survivors
pub mod Answers
pub mod Remixed
