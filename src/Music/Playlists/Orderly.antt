-- ===== src/Music/Playlists/Orderly.antt =====
-- The invariant of the tables of features/music/playlist_repository.py, and what get reads of them.
use mathlib.Core.Option
use cywl_oopz.Prelude.{
  nat_eq, list_eq, refl, ℕ, ◌≡◌, List, [], ◌∷◌, map, Option, none, some, arith, keep, Result, ok,
  err, Option-cases, inl, inr,
}
use cywl_oopz.Prelude.Text.{Text}
use cywl_oopz.Music.Playlists.Rows
use cywl_oopz.Music.Playlists.Tables.{PlaylistError, Tables, MusicPlaylist, is_of}
use cywl_oopz.Music.Playlists.Rows.{
  renamed, is_taken, new_playlist, touch, new_track, enumerate, without, close_gap, is_entry,
  find_position, find_playlist, order_by_position,
}
use cywl_oopz.Music.Playlists.Shelf.{Album, Change, change, shelf, find_album, entry_of}
use cywl_oopz.Music.Playlists.Numbering
use cywl_oopz.Music.Playlists.Numbering.{Numbered, Unseen, Distinct}
use cywl_oopz.Music.Playlists.Contents.{find-album}
use cywl_oopz.Music.Playlists.Rearranged.{IsOrderly, IsDrawn}
use cywl_oopz.Music.Playlists.Upkeep.{Kept, change-Kept}

-- A change that raises is rolled back.
abbrev pub committed : Tables → Result PlaylistError Tables → Tables
committed t (ok later) = later
committed t (err e) = t

unfoldable pub run : Tables → List Change → Tables
unfolding change
run t [] = t
run t (c ∷ changes) = run (committed t (change c t)) changes

-- Each change draws identities that are new where it is made.
abbrev pub AllDrawn : ℕ → Tables → List Change → Type 0
AllDrawn limit t [] = Unit
AllDrawn limit t (c ∷ changes) =
    IsDrawn limit c t × AllDrawn limit (committed t (change c t)) changes

committed-IsOrderly :
    (limit : ℕ) (t : Tables) (r : Result PlaylistError Tables)
    → IsOrderly limit t
    → Kept limit r
    → IsOrderly limit (committed t r)
committed-IsOrderly limit t (ok later) o k = k
committed-IsOrderly limit t (err e) o k = o

Orderly-run :
    (limit : ℕ) (t : Tables) (changes : List Change)
    → AllDrawn limit t changes
    → IsOrderly limit t
    → IsOrderly limit (run t changes)
unfolding run
Orderly-run limit t [] d o = o
Orderly-run limit t (c ∷ changes) d o =
    Orderly-run limit (committed t (change c t)) changes d.1
      (committed-IsOrderly limit t (change c t) o (change-Kept limit c t d.0 o))

abbrev pub no_tables : Tables
no_tables = record { playlists = []; tracks = [] }

-- After any changes of empty tables, each drawing new identities, every playlist has at most
-- max_tracks entries, at the positions 1, 2 and so on without a gap, and no two entries have one
-- identity.
pub run-IsOrderly :
    (limit : ℕ) (changes : List Change)
    → AllDrawn limit no_tables changes
    → IsOrderly limit (run no_tables changes)
run-IsOrderly limit changes d =
    Orderly-run limit no_tables changes d
      (record { numbered = λ id. tt; distinct = tt; within = λ id. omega arith })

-- The album that a loaded playlist shows.
abbrev pub shown : MusicPlaylist → Album
shown p = record {
  id = p.id;
  area_id = p.area_id;
  name = p.name;
  normalized_name = p.normalized_name;
  entries = map entry_of p.entries;
}

abbrev pub InPlace : Option MusicPlaylist → Type 0
InPlace none = Unit
InPlace (some p) = Numbered 1 p.entries

-- Where every playlist is numbered, get loads the album of the shelf, its entries in order and at
-- the positions 1, 2 and so on, or nothing where the area has no such playlist.
pub get-shelf :
    (limit : ℕ) (area : Text) (id : ℕ) (t : Tables)
    → IsOrderly limit t
    → (Option.map shown (Rows.get area id t) ≡ find_album area id (shelf t))
      × InPlace (Rows.get area id t)
unfolding Rows.get
get-shelf limit area id t o =
    rw (find-album area id t.tracks t.playlists)
      (elim (Option-cases (find_playlist area id t.playlists)) [
        | inl missing ↦ rw missing (refl, tt)
        | inr (p, found) ↦
            rw (found, Numbering.order-Numbered 1 (keep (is_of p.id) t.tracks) (o.numbered p.id))
              (refl, o.numbered p.id)
      ])
