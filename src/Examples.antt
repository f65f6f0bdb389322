-- ===== src/Examples.antt =====
-- The theorems at concrete inputs, by part of the program.
mod Access
mod Chat
mod Audio
mod Music
mod Skipping
mod Cycle
mod Commands
mod Delegation
mod Scheduler
mod Ledger
mod Playlists
mod VoiceLease
