-- ===== src/Music/Playlists/Shelf.antt =====
-- What features/music/playlist_repository.py promises its callers: a shelf of playlists, each with
-- its entries in order, without rows, positions or times.
use cywl_oopz.Prelude.{
  ℕ, ◌+◌, Bool, not, ◌&&◌, List, [], ◌∷◌, ◌++◌, map, Option, none, some, if◌then◌else◌, ltb, leb,
  nat_beq, length, any, keep, Result, ok, err, ◌==◌, nat_eq, list_eq,
}
use cywl_oopz.Prelude.Text.{Text}
use cywl_oopz.Music.Models.{MusicTrack}
use cywl_oopz.Music.Playlists.Tables.{
  PlaylistRow, TrackRow, Tables, PlaylistError, playlist_not_found, playlist_conflict,
  playlist_full, is_of,
}
use cywl_oopz.Music.Playlists.Rows.{
  create, append, create_with_tracks, remove, rename, delete, clear,
}

abbrev pub Entry : Type 0
Entry = ℕ × MusicTrack

pub record Album : Type 0 where
  pub id : ℕ
  pub area_id : Text
  pub name : Text
  pub normalized_name : Text
  pub entries : List Entry

abbrev pub Shelf : Type 0
Shelf = List Album

abbrev pub entry_of : TrackRow → Entry
entry_of r = (r.id, r.track)

abbrev pub entries_of : ℕ → List TrackRow → List Entry
entries_of id rows = map entry_of (keep (is_of id) rows)

abbrev pub album : List TrackRow → PlaylistRow → Album
album rows p = record {
  id = p.id;
  area_id = p.area_id;
  name = p.name;
  normalized_name = p.normalized_name;
  entries = entries_of p.id rows;
}

-- The shelf that the tables stand for.
abbrev pub shelf : Tables → Shelf
shelf t = map (album t.tracks) t.playlists

-- A change of the tables; what is drawn and read by the clock is part of it.
pub data Change : Type 0 where
  creates : ℕ → ℕ → Text → Text → Text → Text → Change
  imports : ℕ → ℕ → (ℕ → ℕ) → Text → Text → Text → List MusicTrack → Text → ℕ → Change
  appends : ℕ → ℕ → Text → ℕ → MusicTrack → Text → ℕ → Change
  removes : ℕ → Text → ℕ → ℕ → Change
  renames : ℕ → Text → ℕ → Text → Text → Change
  deletes : Text → ℕ → Change
  clears : ℕ → Text → ℕ → Change

abbrev pub tables_of {ℓ} :
    {A : Type ℓ} → Result PlaylistError (A × Tables) → Result PlaylistError Tables
tables_of (ok (a, t)) = ok t
tables_of (err e) = err e

-- The tables that a method leaves, where it does not raise.
unfoldable pub change : Change → Tables → Result PlaylistError Tables
unfolding create create_with_tracks append remove rename delete clear
change (creates now id area name normalized by) t =
    tables_of (create now id area name normalized by t)
change (imports now id ids area name normalized tracks by max_tracks) t =
    tables_of (create_with_tracks now id ids area name normalized tracks by max_tracks t)
change (appends now entry_id area id track by max_tracks) t =
    tables_of (append now entry_id area id track by max_tracks t)
change (removes now area id entry_id) t = tables_of (remove now area id entry_id t)
change (renames now area id name normalized) t = tables_of (rename now area id name normalized t)
change (deletes area id) t = ok (delete area id t).1
change (clears now area id) t = tables_of (clear now area id t)

abbrev pub is_album : Text → ℕ → Album → Bool
is_album area id a = nat_beq a.id id && a.area_id == area

unfoldable pub find_album : Text → ℕ → Shelf → Option Album
find_album area id [] = none
find_album area id (a ∷ l) = if is_album area id a then some a else find_album area id l

-- The album of an identity with other entries.
abbrev pub adjust : (List Entry → List Entry) → ℕ → Album → Album
adjust f id a = if nat_beq a.id id then record a { entries = f a.entries } else a

abbrev pub retitle : ℕ → Text → Text → Album → Album
retitle id name normalized a =
    if nat_beq a.id id then record a { name = name; normalized_name = normalized } else a

abbrev pub bears : Text → Text → Album → Bool
bears area normalized a = a.area_id == area && a.normalized_name == normalized

abbrev pub new_album : ℕ → Text → Text → Text → List Entry → Album
new_album id area name normalized entries = record {
  id = id;
  area_id = area;
  name = name;
  normalized_name = normalized;
  entries = entries;
}

abbrev pub with_ids : (ℕ → ℕ) → ℕ → List MusicTrack → List Entry
with_ids ids position [] = []
with_ids ids position (track ∷ tracks) = (ids position, track) ∷ with_ids ids (position + 1) tracks

abbrev pub append_spec : ℕ → ℕ → MusicTrack → ℕ → Shelf → Option Album → Result PlaylistError Shelf
append_spec entry_id id track max_tracks l none = err playlist_not_found
append_spec entry_id id track max_tracks l (some a) =
    if leb max_tracks (length a.entries)
    then err playlist_full
    else ok (map (adjust (λ entries. entries ++ (entry_id, track) ∷ []) id) l)

abbrev pub adjust_spec :
    (List Entry → List Entry) → ℕ → Shelf → Option Album → Result PlaylistError Shelf
adjust_spec f id l none = err playlist_not_found
adjust_spec f id l (some a) = ok (map (adjust f id) l)

abbrev pub rename_spec : Text → ℕ → Text → Text → Shelf → Option Album → Result PlaylistError Shelf
rename_spec area id name normalized l none = err playlist_not_found
rename_spec area id name normalized l (some a) =
    if a.name == name && a.normalized_name == normalized
    then ok l
    else if any (λ b. not (nat_beq b.id id) && bears area normalized b) l
    then err playlist_conflict
    else ok (map (retitle id name normalized) l)

abbrev pub delete_spec : ℕ → Shelf → Option Album → Result PlaylistError Shelf
delete_spec id l none = ok l
delete_spec id l (some a) = ok (keep (λ b. not (nat_beq b.id id)) l)

abbrev pub forget : ℕ → List Entry → List Entry
forget entry_id entries = keep (λ (e : Entry). not (nat_beq e.0 entry_id)) entries

-- What a change promises of the shelf.
unfoldable pub spec : Change → Shelf → Result PlaylistError Shelf
unfolding find_album
spec (creates now id area name normalized by) l =
    if any (bears area normalized) l
    then err playlist_conflict
    else ok (l ++ new_album id area name normalized [] ∷ [])
spec (imports now id ids area name normalized tracks by max_tracks) l =
    if ltb max_tracks (length tracks)
    then err playlist_full
    else if any (bears area normalized) l
    then err playlist_conflict
    else ok (l ++ new_album id area name normalized (with_ids ids 1 tracks) ∷ [])
spec (appends now entry_id area id track by max_tracks) l =
    append_spec entry_id id track max_tracks l (find_album area id l)
spec (removes now area id entry_id) l = adjust_spec (forget entry_id) id l (find_album area id l)
spec (renames now area id name normalized) l =
    rename_spec area id name normalized l (find_album area id l)
spec (deletes area id) l = delete_spec id l (find_album area id l)
spec (clears now area id) l = adjust_spec (λ entries. []) id l (find_album area id l)
