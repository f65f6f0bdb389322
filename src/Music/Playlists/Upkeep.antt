-- ===== src/Music/Playlists/Upkeep.antt =====
-- The invariant of the tables of features/music/playlist_repository.py, and what get reads of them.
use cywl_oopz.Prelude.{
  nat_eq, list_eq, ◌==◌, ℕ, ◌≡◌, false, not, ◌||◌, List, [], ◌∷◌, ◌++◌, map, arith, ltb, leb,
  nat_beq, length, any, All, keep, count, Result, ok, err, Bool-cases, Option-cases, inl, inr,
}
use cywl_oopz.Prelude.Text.{Text}
use cywl_oopz.Music.Models.{MusicTrack}
use cywl_oopz.Music.Playlists.Rows
use cywl_oopz.Music.Playlists.Tables.{is_named, PlaylistError, PlaylistRow, Tables, is_of}
use cywl_oopz.Music.Playlists.Rows.{
  renamed, is_taken, new_playlist, touch, new_track, enumerate, without, close_gap, is_entry,
  find_position, find_playlist, order_by_position,
}
use cywl_oopz.Music.Playlists.Shelf.{
  Change, creates, imports, appends, removes, renames, deletes, clears, change, tables_of,
}
use cywl_oopz.Music.Playlists.Numbering.{Unseen}
use cywl_oopz.Music.Playlists.Rearranged.{
  IsOrderly, IsDrawn, appended-IsOrderly, imported-IsOrderly, emptied-IsOrderly, removed-IsOrderly,
}

abbrev pub Kept : ℕ → Result PlaylistError Tables → Type 0
Kept limit (ok t) = IsOrderly limit t
Kept limit (err e) = Unit

same_tracks :
    (limit : ℕ) (t : Tables) (ps : List PlaylistRow)
    → IsOrderly limit t
    → IsOrderly limit (record t { playlists = ps })
same_tracks limit t ps o = record {
  numbered = o.numbered;
  distinct = o.distinct;
  within = o.within;
}

append-Kept :
    (limit now entry_id : ℕ) (area : Text) (id : ℕ) (track : MusicTrack) (by : Text) (t : Tables)
    → IsOrderly limit t
    → Unseen entry_id t.tracks
    → Kept limit (tables_of (Rows.append now entry_id area id track by limit t))
unfolding Rows.append
append-Kept limit now entry_id area id track by t o u =
    elim (Option-cases (find_playlist area id t.playlists)) [
      | inl missing ↦ rw missing tt
      | inr (p, found) ↦ rw found elim (Bool-cases (leb limit (count (is_of id) t.tracks))) [
        | inl full ↦ rw full tt
        | inr room ↦ rw room (
            appended-IsOrderly limit now entry_id id track by t (map (touch now id) t.playlists) o u
              (ground arith))
      ]
    ]

remove-Kept :
    (limit now : ℕ) (area : Text) (id entry_id : ℕ) (t : Tables)
    → IsOrderly limit t
    → Kept limit (tables_of (Rows.remove now area id entry_id t))
unfolding Rows.remove
remove-Kept limit now area id entry_id t o =
    elim (Option-cases (find_playlist area id t.playlists)) [
      | inl missing ↦ rw missing tt
      | inr (p, found) ↦ rw found elim (Option-cases (find_position id entry_id t.tracks)) [
        | inl absent ↦ rw absent o
        | inr (position, present) ↦ rw present (
            removed-IsOrderly limit id entry_id position t (map (touch now id) t.playlists) o
              present)
      ]
    ]

imports-Kept :
    (limit now id : ℕ) (ids : ℕ → ℕ) (area name normalized : Text) (tracks : List MusicTrack)
    (by : Text) (t : Tables)
    → IsOrderly limit t
    → All (λ r. is_of id r ≡ false) t.tracks
    → ((i : ℕ) → Unseen (ids i) t.tracks)
    → ((i j : ℕ) → ids i ≡ ids j → i ≡ j)
    → Kept limit
        (tables_of (Rows.create_with_tracks now id ids area name normalized tracks by limit t))
unfolding Rows.create_with_tracks
imports-Kept limit now id ids area name normalized tracks by t o unused unseen injective =
    let ps = t.playlists ++ new_playlist now id area name normalized by ∷ [] in
    elim (Bool-cases (ltb limit (length tracks))) [
      | inl long ↦ rw long tt
      | inr fits ↦ rw fits elim (Bool-cases (any (is_named area normalized) t.playlists)) [
        | inl taken ↦ rw taken tt
        | inr free ↦ rw free (
            imported-IsOrderly limit now id ids tracks by t ps o unused unseen injective
              (ground arith))
      ]
    ]

rename-Kept :
    (limit now : ℕ) (area : Text) (id : ℕ) (name normalized : Text) (t : Tables)
    → IsOrderly limit t
    → Kept limit (tables_of (Rows.rename now area id name normalized t))
unfolding Rows.rename
rename-Kept limit now area id name normalized t o =
    elim (Option-cases (find_playlist area id t.playlists)) [
      | inl missing ↦ rw missing tt
      | inr (p, found) ↦
          rw found
            elim (Bool-cases
              (not (not (p.name == name) || not (p.normalized_name == normalized)))) [
                | inl same ↦ rw same o
                | inr changed ↦
                    rw changed elim (Bool-cases (any (is_taken id area normalized) t.playlists)) [
                      | inl taken ↦ rw taken tt
                      | inr free ↦
                          rw free (
                            same_tracks limit t (map (renamed now id name normalized) t.playlists)
                              o)
                    ]
              ]
    ]

delete-Kept :
    (limit : ℕ) (area : Text) (id : ℕ) (t : Tables)
    → IsOrderly limit t
    → IsOrderly limit (Rows.delete area id t).1
unfolding Rows.delete
delete-Kept limit area id t o = elim (Option-cases (find_playlist area id t.playlists)) [
  | inl missing ↦ rw missing o
  | inr (p, found) ↦ rw found (
      emptied-IsOrderly limit id t (keep (λ (q : PlaylistRow). not (nat_beq q.id id)) t.playlists)
        o)
]

clear-Kept :
    (limit now : ℕ) (area : Text) (id : ℕ) (t : Tables)
    → IsOrderly limit t
    → Kept limit (tables_of (Rows.clear now area id t))
unfolding Rows.clear
clear-Kept limit now area id t o = elim (Option-cases (find_playlist area id t.playlists)) [
  | inl missing ↦ rw missing tt
  | inr (p, found) ↦ rw found (emptied-IsOrderly limit id t (map (touch now id) t.playlists) o)
]

create-Kept :
    (limit now id : ℕ) (area name normalized by : Text) (t : Tables)
    → IsOrderly limit t
    → Kept limit (tables_of (Rows.create now id area name normalized by t))
unfolding Rows.create
create-Kept limit now id area name normalized by t o =
    elim (Bool-cases (any (is_named area normalized) t.playlists)) [
      | inl taken ↦ rw taken tt
      | inr free ↦
          rw free (
            same_tracks limit t (t.playlists ++ new_playlist now id area name normalized by ∷ []) o)
    ]

pub change-Kept :
    (limit : ℕ) (c : Change) (t : Tables)
    → IsDrawn limit c t
    → IsOrderly limit t
    → Kept limit (change c t)
unfolding change
change-Kept limit (creates now id area name normalized by) t d o =
    create-Kept limit now id area name normalized by t o
change-Kept limit (imports now id ids area name normalized tracks by max_tracks) t d o =
    rw d.3 (imports-Kept limit now id ids area name normalized tracks by t o d.0 d.1 d.2)
change-Kept limit (appends now entry_id area id track by max_tracks) t d o =
    rw d.1 (append-Kept limit now entry_id area id track by t o d.0)
change-Kept limit (removes now area id entry_id) t d o = remove-Kept limit now area id entry_id t o
change-Kept limit (renames now area id name normalized) t d o =
    rename-Kept limit now area id name normalized t o
change-Kept limit (deletes area id) t d o = delete-Kept limit area id t o
change-Kept limit (clears now area id) t d o = clear-Kept limit now area id t o
