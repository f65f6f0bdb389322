-- ===== src/Music/Playlists/Imports.antt =====
-- features/music/playlists.py: the import of a Netease playlist.
use cywl_oopz.Prelude.{
  ℕ, Bool, not, ◌&&◌, Option, none, some, if◌then◌else◌, ltb, Result, ok, err, ◌>>=◌, ◌>>◌,
  raise_if,
}
use cywl_oopz.Prelude.Text.{Text}
use cywl_oopz.Commands.Parsing.{is_empty}
use cywl_oopz.Music.Playlists.Tables.{Tables, MusicPlaylist}
use cywl_oopz.Music.Playlists.Rows.{create_with_tracks}
use cywl_oopz.Music.Playlists.Service.{
  ActorContext, ServiceError, catalog, netease_too_large, netease_incomplete, playlist_empty,
  NeteasePlaylistSnapshot, NeteasePlaylistImport, is_complete, has_no_tracks, stored, area_id,
  normalize_name,
}

abbrev pub Source : Type 0
Source = Text → ℕ → Result ServiceError NeteasePlaylistSnapshot

-- preview_netease
unfoldable pub preview_netease :
    Option Source → ℕ → Text → Result ServiceError NeteasePlaylistSnapshot
preview_netease none max_playlist_tracks reference = err catalog
preview_netease (some source) max_playlist_tracks reference = source reference max_playlist_tracks

-- name or snapshot.name
abbrev pub chosen_name : Option Text → Text → Text
chosen_name none default = default
chosen_name (some name) default = if is_empty name then default else name

-- What import_netease refuses of a snapshot.
unfoldable pub check_snapshot : ℕ → Bool → NeteasePlaylistSnapshot → Result ServiceError (Unit {0})
check_snapshot max_playlist_tracks allow_partial snapshot = do
  raise_if (ltb max_playlist_tracks snapshot.declared_track_count && not allow_partial)
      netease_too_large
  raise_if (not (is_complete snapshot) && not allow_partial) netease_incomplete
  raise_if (has_no_tracks snapshot.tracks) playlist_empty
  ok tt

abbrev pub imported :
    NeteasePlaylistSnapshot → MusicPlaylist × Tables → NeteasePlaylistImport × Tables
imported snapshot (playlist, t) = (
  record {
    source_id = snapshot.source_id;
    source_name = snapshot.name;
    declared_track_count = snapshot.declared_track_count;
    playlist = playlist;
  },
  t,
)

unfoldable pub import_netease :
    (Text → Text)
    → (Text → Text)
    → Option Source
    → ℕ
    → ℕ
    → ℕ
    → (ℕ → ℕ)
    → ActorContext
    → Text
    → Option Text
    → Bool
    → Tables
    → Result ServiceError (NeteasePlaylistImport × Tables)
unfolding area_id preview_netease check_snapshot normalize_name create_with_tracks
import_netease nfkc casefold source max_playlist_tracks now id ids identity reference name
      allow_partial t =
    do
      area ← area_id identity
      snapshot ← preview_netease source max_playlist_tracks reference
      check_snapshot max_playlist_tracks allow_partial snapshot
      names ← normalize_name nfkc casefold (chosen_name name snapshot.name)
      outcome ← stored (
          create_with_tracks now id ids area names.0 names.1 snapshot.tracks identity.person_id
            max_playlist_tracks t)
      ok (imported snapshot outcome)
