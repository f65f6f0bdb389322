-- ===== src/Music/Playlists.antt =====
-- The shared playlists of features/music/: playlist_repository.py and playlists.py.
pub mod Tables
pub mod Rows
pub mod Shelf
pub mod Contents
pub mod Numbering
pub mod Refinement
pub mod Identities
pub mod Rearranged
pub mod Upkeep
pub mod Orderly
pub mod Service
pub mod Imports
pub mod Serving
pub mod Importing
