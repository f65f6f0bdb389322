-- ===== src/Music.antt =====
-- Music queues and playback workers: src/cywl_oopz/features/music/.
pub mod Models
pub mod Session
pub mod Playlists
pub mod Requests
pub mod Controls
pub mod Prepare
pub mod Attempt
pub mod Worker
pub mod Shuffle
pub mod Consistency
pub mod Interleaving
pub mod Resting
pub mod Rounds
pub mod Calm
pub mod Sums
pub mod Retries
pub mod Drain
pub mod Enqueue
pub mod Skipping
pub mod Closing
pub mod Cycle
