-- ===== src/Music/Playlists/Contents.antt =====
-- How the rows of features/music/playlist_repository.py stand for the shelf, change by change.
use mathlib.Core.List.{append-nil}
use mathlib.Core.Option
use cywl_oopz.Prelude.{
  refl, ℕ, ◌+◌, ◌≡◌, false, not, ◌&&◌, List, [], ◌∷◌, ◌++◌, map, none, some, arith, if◌then◌else◌,
  nat_beq, nat_beq_iff, length, any, All, keep, count,
}
use cywl_oopz.Prelude.Text.{Text}
use cywl_oopz.Music.Models.{MusicTrack}
use cywl_oopz.Music.Playlists.Tables.{PlaylistRow, TrackRow, is_of, is_named}
use cywl_oopz.Music.Playlists.Rows.{
  is_taken, find_playlist, touch, renamed, new_track, enumerate, without, find_position,
}
use cywl_oopz.Music.Playlists.Shelf.{
  Entry, entries_of, album, find_album, adjust, retitle, bears, with_ids, forget,
}

pub length-entries_of :
    (id : ℕ) (rows : List TrackRow) → length (entries_of id rows) ≡ count (is_of id) rows
length-entries_of id [] = refl
length-entries_of id (r ∷ rows) = ground (arith, length-entries_of id rows)

pub entries_of-append :
    (id : ℕ) (rows more : List TrackRow)
    → entries_of id (rows ++ more) ≡ entries_of id rows ++ entries_of id more
entries_of-append id [] more = refl
entries_of-append id (r ∷ rows) more = ground (arith, entries_of-append id rows more)

pub find-album :
    (area : Text) (id : ℕ) (rows : List TrackRow) (ps : List PlaylistRow)
    → find_album area id (map (album rows) ps) ≡ Option.map (album rows) (find_playlist area id ps)
unfolding find_album find_playlist
find-album area id rows [] = refl
find-album area id rows (p ∷ ps) = ground (arith, find-album area id rows ps)

pub any-bears :
    (area normalized : Text) (rows : List TrackRow) (ps : List PlaylistRow)
    → any (bears area normalized) (map (album rows) ps) ≡ any (is_named area normalized) ps
any-bears area normalized rows [] = refl
any-bears area normalized rows (p ∷ ps) = ground (arith, any-bears area normalized rows ps)

pub any-taken :
    (id : ℕ) (area normalized : Text) (rows : List TrackRow) (ps : List PlaylistRow)
    → any (λ b. not (nat_beq b.id id) && bears area normalized b) (map (album rows) ps)
      ≡ any (is_taken id area normalized) ps
any-taken id area normalized rows [] = refl
any-taken id area normalized rows (p ∷ ps) = ground (arith, any-taken id area normalized rows ps)

-- Rows in which the entries of one playlist have changed.
abbrev pub Adjusts : (List Entry → List Entry) → ℕ → List TrackRow → List TrackRow → Type 0
Adjusts f id rows later =
    (q : ℕ)
    → entries_of q later ≡ (if nat_beq q id then f (entries_of q rows) else entries_of q rows)

pub adjust-shelf :
    (f : List Entry → List Entry) (now id : ℕ) (rows later : List TrackRow) (ps : List PlaylistRow)
    → Adjusts f id rows later
    → map (album later) (map (touch now id) ps) ≡ map (adjust f id) (map (album rows) ps)
adjust-shelf f now id rows later [] h = refl
adjust-shelf f now id rows later (p ∷ ps) h =
    ground (arith, h p.id, adjust-shelf f now id rows later ps h)

pub retitle-shelf :
    (now id : ℕ) (name normalized : Text) (rows : List TrackRow) (ps : List PlaylistRow)
    → map (album rows) (map (renamed now id name normalized) ps)
      ≡ map (retitle id name normalized) (map (album rows) ps)
retitle-shelf now id name normalized rows [] = refl
retitle-shelf now id name normalized rows (p ∷ ps) =
    ground (arith, retitle-shelf now id name normalized rows ps)

pub append-Adjusts :
    (now entry_id id position : ℕ) (track : MusicTrack) (by : Text) (rows : List TrackRow)
    → Adjusts
        (λ entries. entries ++ (entry_id, track) ∷ [])
        id
        rows
        (rows ++ new_track now entry_id id position track by ∷ [])
append-Adjusts now entry_id id position track by rows q = ground (
  arith,
  entries_of-append q rows (new_track now entry_id id position track by ∷ []),
  nat_beq_iff q id,
  nat_beq_iff id q,
  append-nil (entries_of q rows),
)

pub clear-Adjusts :
    (id : ℕ) (rows : List TrackRow)
    → Adjusts (λ entries. []) id rows (keep (λ r. not (is_of id r)) rows)
clear-Adjusts id [] q = ground arith
clear-Adjusts id (r ∷ rows) q = ground (
  arith,
  clear-Adjusts id rows q,
  nat_beq_iff r.playlist_id id,
  nat_beq_iff r.playlist_id q,
  nat_beq_iff q id,
)

pub without-Adjusts :
    (id entry_id position : ℕ) (rows : List TrackRow)
    → Adjusts (forget entry_id) id rows (without id entry_id position rows)
without-Adjusts id entry_id position [] q = ground arith
without-Adjusts id entry_id position (r ∷ rows) q = ground (
  arith,
  without-Adjusts id entry_id position rows q,
  nat_beq_iff r.playlist_id id,
  nat_beq_iff r.playlist_id q,
  nat_beq_iff q id,
)

-- An entry that is not there.
pub absent-Adjusts :
    (id entry_id : ℕ) (rows : List TrackRow)
    → find_position id entry_id rows ≡ none
    → Adjusts (forget entry_id) id rows rows
unfolding find_position
absent-Adjusts id entry_id [] h q = ground arith
absent-Adjusts id entry_id (r ∷ rows) h q =
    let rest : find_position id entry_id rows ≡ none = ground arith in
    ground (
      arith,
      absent-Adjusts id entry_id rows rest q,
      nat_beq_iff r.playlist_id id,
      nat_beq_iff r.playlist_id q,
      nat_beq_iff q id,
    )

pub touch_none :
    (f : List Entry → List Entry) (id : ℕ) (rows : List TrackRow) (ps : List PlaylistRow)
    → Adjusts f id rows rows
    → map (album rows) ps ≡ map (adjust f id) (map (album rows) ps)
touch_none f id rows [] h = refl
touch_none f id rows (p ∷ ps) h = ground (arith, h p.id, touch_none f id rows ps h)

pub delete-shelf :
    (id : ℕ) (rows : List TrackRow) (ps : List PlaylistRow)
    → map (album (keep (λ r. not (is_of id r)) rows)) (keep (λ q. not (nat_beq q.id id)) ps)
      ≡ keep (λ b. not (nat_beq b.id id)) (map (album rows) ps)
delete-shelf id rows [] = refl
delete-shelf id rows (p ∷ ps) = ground (arith, delete-shelf id rows ps, clear-Adjusts id rows p.id)

-- No row has the identity.
abbrev pub Unused : ℕ → List PlaylistRow → List TrackRow → Type 0
Unused id ps rows =
    All (λ (p : PlaylistRow). nat_beq p.id id ≡ false) ps × All (λ r. is_of id r ≡ false) rows

pub entries_of-unused :
    (id : ℕ) (rows : List TrackRow) → All (λ r. is_of id r ≡ false) rows → entries_of id rows ≡ []
entries_of-unused id [] h = refl
entries_of-unused id (r ∷ rows) h = ground (arith, h.0, entries_of-unused id rows h.1)

pub entries_of-enumerate :
    (now : ℕ) (ids : ℕ → ℕ) (id q : ℕ) (by : Text) (position : ℕ) (tracks : List MusicTrack)
    → entries_of q (enumerate now ids id by position tracks)
      ≡ (if nat_beq id q then with_ids ids position tracks else [])
unfolding enumerate
entries_of-enumerate now ids id q by position [] = ground arith
entries_of-enumerate now ids id q by position (track ∷ tracks) =
    ground (arith, entries_of-enumerate now ids id q by (position + 1) tracks)

-- Rows for a new playlist leave the others as they were.
pub import-shelf :
    (now : ℕ) (ids : ℕ → ℕ) (id : ℕ) (by : Text) (tracks : List MusicTrack) (rows : List TrackRow)
    (ps : List PlaylistRow)
    → All (λ (p : PlaylistRow). nat_beq p.id id ≡ false) ps
    → map (album (rows ++ enumerate now ids id by 1 tracks)) ps ≡ map (album rows) ps
import-shelf now ids id by tracks rows [] h = refl
import-shelf now ids id by tracks rows (p ∷ ps) h = ground (
  arith,
  h.0,
  nat_beq_iff p.id id,
  nat_beq_iff id p.id,
  import-shelf now ids id by tracks rows ps h.1,
  entries_of-append p.id rows (enumerate now ids id by 1 tracks),
  entries_of-enumerate now ids id p.id by 1 tracks,
  append-nil (entries_of p.id rows),
)

pub find_playlist-id :
    (area : Text) (id : ℕ) (ps : List PlaylistRow) (p : PlaylistRow)
    → find_playlist area id ps ≡ some p
    → p.id ≡ id
unfolding find_playlist
find_playlist-id area id [] p h = absurd (cc)
find_playlist-id area id (q ∷ ps) p h =
    ground (arith, nat_beq_iff q.id id, find_playlist-id area id ps p)
