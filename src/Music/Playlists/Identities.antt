-- ===== src/Music/Playlists/Identities.antt =====
-- The invariant of the tables of features/music/playlist_repository.py, and what get reads of them.
use cywl_oopz.Prelude.{
  nat_eq, list_eq, if_ind, refl, ℕ, ◌+◌, ◌≤◌, ◌≡◌, Bool, false, List, [], ◌∷◌, ◌++◌, map, arith,
  if◌then◌else◌, nat_beq, nat_beq_iff, length, All, keep, count,
}
use cywl_oopz.Prelude.Text.{Text}
use cywl_oopz.Music.Models.{MusicTrack}
use cywl_oopz.Music.Playlists.Tables.{TrackRow, is_of}
use cywl_oopz.Music.Playlists.Rows.{enumerate, close_gap}
use cywl_oopz.Music.Playlists.Numbering.{Unseen, Distinct}

Unseen-append :
    (e : ℕ) (rows more : List TrackRow) → Unseen e rows → Unseen e more → Unseen e (rows ++ more)
Unseen-append e [] more h k = k
Unseen-append e (r ∷ rows) more h k = (h.0, Unseen-append e rows more h.1 k)

-- No row of the first list has the identity of a row of the second.
abbrev Apart : List TrackRow → List TrackRow → Type 0
Apart rows [] = Unit
Apart rows (m ∷ more) = Unseen m.id rows × Apart rows more

Apart-cons :
    (r : TrackRow) (rows more : List TrackRow)
    → Apart (r ∷ rows) more
    → Unseen r.id more × Apart rows more
Apart-cons r rows [] h = (tt, tt)
Apart-cons r rows (m ∷ more) (u, h) =
    let (seen, rest) = Apart-cons r rows more h in ((ground (arith, u.0), seen), (u.1, rest))

pub Distinct-append :
    (rows more : List TrackRow)
    → Distinct rows
    → Distinct more
    → Apart rows more
    → Distinct (rows ++ more)
Distinct-append [] more d e a = e
Distinct-append (r ∷ rows) more d e a =
    let (seen, rest) = Apart-cons r rows more a in
    (Unseen-append r.id rows more d.0 seen, Distinct-append rows more d.1 e rest)

Unseen-enumerate :
    (now : ℕ) (ids : ℕ → ℕ) (id e : ℕ) (by : Text) (n : ℕ) (tracks : List MusicTrack)
    → ((i : ℕ) → n ≤ i → nat_beq (ids i) e ≡ false)
    → Unseen e (enumerate now ids id by n tracks)
unfolding enumerate
Unseen-enumerate now ids id e by n [] h = tt
Unseen-enumerate now ids id e by n (track ∷ tracks) h =
    (h n (omega arith), Unseen-enumerate now ids id e by (n + 1) tracks (λ i l. h i (omega arith)))

pub Distinct-enumerate :
    (now : ℕ) (ids : ℕ → ℕ) (id : ℕ) (by : Text) (n : ℕ) (tracks : List MusicTrack)
    → ((i j : ℕ) → ids i ≡ ids j → i ≡ j)
    → Distinct (enumerate now ids id by n tracks)
unfolding enumerate
Distinct-enumerate now ids id by n [] h = tt
Distinct-enumerate now ids id by n (track ∷ tracks) h = (
  Unseen-enumerate now ids id (ids n) by (n + 1) tracks
      (λ i l. ground (arith, nat_beq_iff (ids i) (ids n), h i n)),
  Distinct-enumerate now ids id by (n + 1) tracks h,
)

pub Apart-enumerate :
    (now : ℕ) (ids : ℕ → ℕ) (id : ℕ) (by : Text) (n : ℕ) (tracks : List MusicTrack)
    (rows : List TrackRow)
    → ((i : ℕ) → Unseen (ids i) rows)
    → Apart rows (enumerate now ids id by n tracks)
unfolding enumerate
Apart-enumerate now ids id by n [] rows h = tt
Apart-enumerate now ids id by n (track ∷ tracks) rows h =
    (h n, Apart-enumerate now ids id by (n + 1) tracks rows h)

Unseen-keep :
    (e : ℕ) (p : TrackRow → Bool) (rows : List TrackRow) → Unseen e rows → Unseen e (keep p rows)
Unseen-keep e p [] h = tt
Unseen-keep e p (r ∷ rows) h =
    if_ind (Unseen e) (p r) (λ _. (h.0, Unseen-keep e p rows h.1)) (λ _. Unseen-keep e p rows h.1)

pub Distinct-keep :
    (p : TrackRow → Bool) (rows : List TrackRow) → Distinct rows → Distinct (keep p rows)
Distinct-keep p [] d = tt
Distinct-keep p (r ∷ rows) d =
    if_ind Distinct (p r) (λ _. (Unseen-keep r.id p rows d.0, Distinct-keep p rows d.1))
      (λ _. Distinct-keep p rows d.1)

close_gap-id : (id position : ℕ) (r : TrackRow) → (close_gap id position r).id ≡ r.id
close_gap-id id position r = ground arith

Unseen-close_gap :
    (e id position : ℕ) (rows : List TrackRow)
    → Unseen e rows
    → Unseen e (map (close_gap id position) rows)
Unseen-close_gap e id position [] h = tt
Unseen-close_gap e id position (r ∷ rows) h =
    (rw (close_gap-id id position r) h.0, Unseen-close_gap e id position rows h.1)

pub Distinct-close_gap :
    (id position : ℕ) (rows : List TrackRow)
    → Distinct rows
    → Distinct (map (close_gap id position) rows)
Distinct-close_gap id position [] d = tt
Distinct-close_gap id position (r ∷ rows) d = (
  rw (close_gap-id id position r) (Unseen-close_gap r.id id position rows d.0),
  Distinct-close_gap id position rows d.1,
)

pub count-keep-le :
    (p q : TrackRow → Bool) (rows : List TrackRow) → count p (keep q rows) ≤ count p rows
count-keep-le p q [] = omega arith
count-keep-le p q (r ∷ rows) = ground (arith, count-keep-le p q rows)

pub count-close_gap :
    (q id position : ℕ) (rows : List TrackRow)
    → count (is_of q) (map (close_gap id position) rows) ≡ count (is_of q) rows
count-close_gap q id position [] = refl
count-close_gap q id position (r ∷ rows) = ground (arith, count-close_gap q id position rows)

pub count-enumerate :
    (now : ℕ) (ids : ℕ → ℕ) (id q : ℕ) (by : Text) (n : ℕ) (tracks : List MusicTrack)
    → count (is_of q) (enumerate now ids id by n tracks)
      ≡ (if nat_beq id q then length tracks else 0)
unfolding enumerate
count-enumerate now ids id q by n [] = ground arith
count-enumerate now ids id q by n (track ∷ tracks) =
    ground (arith, count-enumerate now ids id q by (n + 1) tracks)

pub keep-unused :
    (id : ℕ) (rows : List TrackRow)
    → All (λ r. is_of id r ≡ false) rows
    → (keep (is_of id) rows ≡ []) × (count (is_of id) rows ≡ 0)
keep-unused id [] h = (refl, refl)
keep-unused id (r ∷ rows) h = ground (arith, h.0, keep-unused id rows h.1)
