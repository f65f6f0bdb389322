-- ===== src/Music/Playlists/Refinement.antt =====
-- The methods of features/music/playlist_repository.py implement the changes of the shelf.
use mathlib.Core.List.{map-append}
use cywl_oopz.Prelude.{
  Option-cases, ℕ, ◌+◌, ◌≡◌, not, List, [], ◌∷◌, ◌++◌, arith, nat_beq_iff, keep, count, Result, ok,
  err, inl, inr, ap,
}
use cywl_oopz.Prelude.Text.{Text}
use cywl_oopz.Music.Models.{MusicTrack}
use cywl_oopz.Music.Playlists.Tables.{PlaylistError, Tables, is_of}
use cywl_oopz.Music.Playlists.Rows.{
  new_playlist, delete, remove, clear, rename, append, create_with_tracks, create, find_playlist,
  new_track, enumerate, without, find_position,
}
use cywl_oopz.Music.Playlists.Shelf.{
  forget, album, Shelf, Change, creates, imports, appends, removes, renames, deletes, clears,
  change, spec, shelf, tables_of,
}
use cywl_oopz.Music.Playlists.Contents

-- uuid4 has drawn the identity of a new playlist for no row before.
abbrev pub IsFresh : Change → Tables → Type 0
IsFresh (creates now id area name normalized by) t = Contents.Unused id t.playlists t.tracks
IsFresh (imports now id ids area name normalized tracks by max_tracks) t =
    Contents.Unused id t.playlists t.tracks
IsFresh (appends now entry_id area id track by max_tracks) t = Unit
IsFresh (removes now area id entry_id) t = Unit
IsFresh (renames now area id name normalized) t = Unit
IsFresh (deletes area id) t = Unit
IsFresh (clears now area id) t = Unit

-- The shelf of what a change leaves.
abbrev pub shelf_after : Result PlaylistError Tables → Result PlaylistError Shelf
shelf_after (ok t) = ok (shelf t)
shelf_after (err e) = err e

create-shelf :
    (now id : ℕ) (area name normalized by : Text) (t : Tables)
    → Contents.Unused id t.playlists t.tracks
    → shelf_after (tables_of (create now id area name normalized by t))
      ≡ spec (creates now id area name normalized by) (shelf t)
unfolding create spec
create-shelf now id area name normalized by t fresh = ground (
  arith,
  Contents.any-bears area normalized t.tracks t.playlists,
  map-append (album t.tracks) t.playlists (new_playlist now id area name normalized by ∷ []),
  Contents.entries_of-unused id t.tracks fresh.1,
)

imports-shelf :
    (now id : ℕ) (ids : ℕ → ℕ) (area name normalized : Text) (tracks : List MusicTrack) (by : Text)
    (max_tracks : ℕ) (t : Tables)
    → Contents.Unused id t.playlists t.tracks
    → shelf_after
        (tables_of (create_with_tracks now id ids area name normalized tracks by max_tracks t))
      ≡ spec (imports now id ids area name normalized tracks by max_tracks) (shelf t)
unfolding create_with_tracks spec
imports-shelf now id ids area name normalized tracks by max_tracks t fresh =
    let more = enumerate now ids id by 1 tracks in
    ground (
      arith,
      Contents.any-bears area normalized t.tracks t.playlists,
      map-append (album (t.tracks ++ more)) t.playlists
          (new_playlist now id area name normalized by ∷ []),
      Contents.import-shelf now ids id by tracks t.tracks t.playlists fresh.0,
      Contents.entries_of-append id t.tracks more,
      Contents.entries_of-unused id t.tracks fresh.1,
      Contents.entries_of-enumerate now ids id id by 1 tracks,
      nat_beq_iff id id,
    )

append-shelf :
    (now entry_id : ℕ) (area : Text) (id : ℕ) (track : MusicTrack) (by : Text) (max_tracks : ℕ)
    (t : Tables)
    → shelf_after (tables_of (append now entry_id area id track by max_tracks t))
      ≡ spec (appends now entry_id area id track by max_tracks) (shelf t)
unfolding append spec
append-shelf now entry_id area id track by max_tracks t =
    rw (Contents.find-album area id t.tracks t.playlists)
      (elim (Option-cases (find_playlist area id t.playlists)) [
        | inl missing ↦ rw missing
        | inr (p, found) ↦
            let same = Contents.find_playlist-id area id t.playlists p found in
            rw found (
              ground (
                arith,
                same,
                Contents.length-entries_of id t.tracks,
                Contents.adjust-shelf (λ entries. entries ++ (entry_id, track) ∷ []) now id t.tracks
                    (t.tracks
                      ++ new_track now entry_id id (count (is_of id) t.tracks + 1) track by ∷ [])
                    t.playlists
                    (Contents.append-Adjusts now entry_id id (count (is_of id) t.tracks + 1) track
                      by t.tracks),
              ))
      ])

remove-shelf :
    (now : ℕ) (area : Text) (id entry_id : ℕ) (t : Tables)
    → shelf_after (tables_of (remove now area id entry_id t))
      ≡ spec (removes now area id entry_id) (shelf t)
unfolding remove spec
remove-shelf now area id entry_id t =
    rw (Contents.find-album area id t.tracks t.playlists)
      (elim (Option-cases (find_playlist area id t.playlists)) [
        | inl missing ↦ rw missing
        | inr (p, found) ↦ rw found (elim (Option-cases (find_position id entry_id t.tracks)) [
          | inl absent ↦ rw absent (
              ap ok (
                Contents.touch_none (forget entry_id) id t.tracks t.playlists
                  (Contents.absent-Adjusts id entry_id t.tracks absent)))
          | inr (position, present) ↦ rw present (
              ap ok (
                Contents.adjust-shelf (forget entry_id) now id t.tracks
                  (without id entry_id position t.tracks) t.playlists
                  (Contents.without-Adjusts id entry_id position t.tracks)))
        ])
      ])

rename-shelf :
    (now : ℕ) (area : Text) (id : ℕ) (name normalized : Text) (t : Tables)
    → shelf_after (tables_of (rename now area id name normalized t))
      ≡ spec (renames now area id name normalized) (shelf t)
unfolding rename spec
rename-shelf now area id name normalized t =
    rw (Contents.find-album area id t.tracks t.playlists)
      (elim (Option-cases (find_playlist area id t.playlists)) [
        | inl missing ↦ rw missing
        | inr (p, found) ↦ rw found (
            ground (
              arith,
              Contents.any-taken id area normalized t.tracks t.playlists,
              Contents.retitle-shelf now id name normalized t.tracks t.playlists,
            ))
      ])

delete-shelf :
    (area : Text) (id : ℕ) (t : Tables)
    → shelf_after (ok (delete area id t).1) ≡ spec (deletes area id) (shelf t)
unfolding delete spec
delete-shelf area id t =
    rw (Contents.find-album area id t.tracks t.playlists)
      (elim (Option-cases (find_playlist area id t.playlists)) [
        | inl missing ↦ rw missing
        | inr (p, found) ↦ rw found (ap ok (Contents.delete-shelf id t.tracks t.playlists))
      ])

clear-shelf :
    (now : ℕ) (area : Text) (id : ℕ) (t : Tables)
    → shelf_after (tables_of (clear now area id t)) ≡ spec (clears now area id) (shelf t)
unfolding clear spec
clear-shelf now area id t =
    rw (Contents.find-album area id t.tracks t.playlists)
      (elim (Option-cases (find_playlist area id t.playlists)) [
        | inl missing ↦ rw missing
        | inr (p, found) ↦ rw found (
            ap ok (
              Contents.adjust-shelf (λ entries. []) now id t.tracks
                (keep (λ r. not (is_of id r)) t.tracks) t.playlists
                (Contents.clear-Adjusts id t.tracks)))
      ])

-- Every change of the tables is the change of the shelf that they stand for, and is refused where
-- that is, with the same error: a name that the area has, a playlist that is not there, a full one.
pub change-shelf :
    (c : Change) (t : Tables) → IsFresh c t → shelf_after (change c t) ≡ spec c (shelf t)
unfolding change
change-shelf (creates now id area name normalized by) t fresh =
    create-shelf now id area name normalized by t fresh
change-shelf (imports now id ids area name normalized tracks by max_tracks) t fresh =
    imports-shelf now id ids area name normalized tracks by max_tracks t fresh
change-shelf (appends now entry_id area id track by max_tracks) t fresh =
    append-shelf now entry_id area id track by max_tracks t
change-shelf (removes now area id entry_id) t fresh = remove-shelf now area id entry_id t
change-shelf (renames now area id name normalized) t fresh =
    rename-shelf now area id name normalized t
change-shelf (deletes area id) t fresh = delete-shelf area id t
change-shelf (clears now area id) t fresh = clear-shelf now area id t
