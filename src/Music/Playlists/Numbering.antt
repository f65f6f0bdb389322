-- ===== src/Music/Playlists/Numbering.antt =====
-- The positions of the entries in features/music/playlist_repository.py: 1, 2, and so on.
use mathlib.Core.Path.{subst}
use cywl_oopz.Prelude.{
  refl, ℕ, ◌+◌, ◌≤◌, ◌≡◌, Bool, true, false, not, ◌&&◌, List, [], ◌∷◌, ◌++◌, some, arith,
  if◌then◌else◌, ltb, nat_beq, nat_beq_iff, length, All, keep, count, Bool-cases, inl, inr, suc,
}
use cywl_oopz.Prelude.Text.{Text}
use cywl_oopz.Music.Models.{MusicTrack}
use cywl_oopz.Music.Playlists.Tables.{TrackRow, is_of}
use cywl_oopz.Music.Playlists.Rows.{
  enumerate, without, find_position, insert_by_position, order_by_position,
}

abbrev pub Numbered : ℕ → List TrackRow → Type 0
Numbered n [] = Unit
Numbered n (r ∷ rows) = (r.position ≡ n) × Numbered (n + 1) rows

-- No row has the entry's identity.
abbrev pub Unseen : ℕ → List TrackRow → Type 0
Unseen entry_id = All (λ (r : TrackRow). nat_beq r.id entry_id ≡ false)

abbrev pub Distinct : List TrackRow → Type 0
Distinct [] = Unit
Distinct (r ∷ rows) = Unseen r.id rows × Distinct rows

pub keep-append {ℓ} :
    {A : Type ℓ} (p : A → Bool) (xs ys : List A) → keep p (xs ++ ys) ≡ keep p xs ++ keep p ys
keep-append p [] ys = refl
keep-append p (x ∷ xs) ys = ground (arith, keep-append p xs ys)

pub length-keep {ℓ} : {A : Type ℓ} (p : A → Bool) (xs : List A) → length (keep p xs) ≡ count p xs
length-keep p [] = refl
length-keep p (x ∷ xs) = ground (arith, length-keep p xs)

pub Numbered-append :
    (n : ℕ) (rows : List TrackRow) (more : List TrackRow)
    → Numbered n rows
    → Numbered (n + length rows) more
    → Numbered n (rows ++ more)
Numbered-append n [] more h k = let e : n + 0 ≡ n = omega arith in subst (λ m. Numbered m more) e k
Numbered-append n (r ∷ rows) more h k =
    let e : n + suc (length rows) ≡ n + 1 + length rows = omega arith in
    (h.0, Numbered-append (n + 1) rows more h.1 (subst (λ m. Numbered m more) e k))

pub Numbered-enumerate :
    (now : ℕ) (ids : ℕ → ℕ) (id : ℕ) (by : Text) (n : ℕ) (tracks : List MusicTrack)
    → Numbered n (enumerate now ids id by n tracks)
unfolding enumerate
Numbered-enumerate now ids id by n [] = tt
Numbered-enumerate now ids id by n (track ∷ tracks) =
    (refl, Numbered-enumerate now ids id by (n + 1) tracks)

pub keep-enumerate :
    (now : ℕ) (ids : ℕ → ℕ) (id q : ℕ) (by : Text) (n : ℕ) (tracks : List MusicTrack)
    → keep (is_of q) (enumerate now ids id by n tracks)
      ≡ (if nat_beq id q then enumerate now ids id by n tracks else [])
unfolding enumerate
keep-enumerate now ids id q by n [] = ground arith
keep-enumerate now ids id q by n (track ∷ tracks) =
    ground (arith, keep-enumerate now ids id q by (n + 1) tracks)

-- The other playlists keep their rows.
pub without_other :
    (id q entry_id position : ℕ) (rows : List TrackRow)
    → nat_beq q id ≡ false
    → keep (is_of q) (without id entry_id position rows) ≡ keep (is_of q) rows
without_other id q entry_id position [] h = refl
without_other id q entry_id position (r ∷ rows) h = ground (
  arith,
  without_other id q entry_id position rows h,
  nat_beq_iff r.playlist_id id,
  nat_beq_iff r.playlist_id q,
  nat_beq_iff q id,
)

pub emptied_other :
    (id q : ℕ) (rows : List TrackRow)
    → keep (is_of q) (keep (λ r. not (is_of id r)) rows)
      ≡ (if nat_beq q id then [] else keep (is_of q) rows)
emptied_other id q [] = ground arith
emptied_other id q (r ∷ rows) = ground (
  arith,
  emptied_other id q rows,
  nat_beq_iff r.playlist_id id,
  nat_beq_iff r.playlist_id q,
  nat_beq_iff q id,
)

module _ (id entry_id : ℕ) where
  -- The rows behind the removed one move up.
  moved_up :
      (n position : ℕ) (rows : List TrackRow)
      → position ≤ n
      → Unseen entry_id rows
      → Numbered (n + 1) (keep (is_of id) rows)
      → Numbered n (keep (is_of id) (without id entry_id position rows))
  moved_up n position [] h u k = tt
  moved_up n position (r ∷ rows) h u k = elim (Bool-cases (is_of id r)) [
    | inl own ↦
        let k' = rw own at k in
        let up : ltb position r.position ≡ true = ground (arith, k'.0) in
        rw (u.0, own, up, own)
          (omega (arith, k'.0), moved_up (n + 1) position rows (omega arith) u.1 k'.1)
    | inr other ↦ rw (u.0, other, other) (moved_up n position rows h u.1 (rw other at k))
  ]

  position-le :
      (n position : ℕ) (rows : List TrackRow)
      → Numbered n (keep (is_of id) rows)
      → find_position id entry_id rows ≡ some position
      → n ≤ position
  unfolding find_position
  position-le n position [] k f = absurd (cc)
  position-le n position (r ∷ rows) k f = elim (Bool-cases (is_of id r)) [
    | inl own ↦
        let k' = rw own at k in
        elim (Bool-cases (nat_beq r.id entry_id)) [
          | inl here ↦ ground (arith, k'.0)
          | inr there ↦
              let later : find_position id entry_id rows ≡ some position = ground arith in
              omega (arith, position-le (n + 1) position rows k'.1 later)
        ]
    | inr other ↦
        let later : find_position id entry_id rows ≡ some position = ground arith in
        position-le n position rows (rw other at k) later
  ]

  -- Removing an entry leaves the positions of its playlist without a gap.
  pub Numbered-without :
      (n position : ℕ) (rows : List TrackRow)
      → Distinct rows
      → Numbered n (keep (is_of id) rows)
      → find_position id entry_id rows ≡ some position
      → Numbered n (keep (is_of id) (without id entry_id position rows))
  unfolding find_position
  Numbered-without n position [] d k f = tt
  Numbered-without n position (r ∷ rows) d k f = elim (Bool-cases (is_of id r)) [
    | inl own ↦
        let k' = rw own at k in
        elim (Bool-cases (nat_beq r.id entry_id)) [
          | inl here ↦
              let p : position ≡ n = ground (arith, k'.0) in
              let e : r.id ≡ entry_id = (nat_beq_iff r.id entry_id).0 here in
              rw (here, own)
                (moved_up n position rows (omega (arith, p)) (subst (λ i. Unseen i rows) e d.0)
                  k'.1)
          | inr there ↦
              let later : find_position id entry_id rows ≡ some position = ground arith in
              let stays : ltb position r.position ≡ false =
                ground (arith, k'.0, position-le (n + 1) position rows k'.1 later) in
              rw (there, own, stays, own)
                (k'.0, Numbered-without (n + 1) position rows d.1 k'.1 later)
        ]
    | inr other ↦
        let later : find_position id entry_id rows ≡ some position = ground arith in
        let kept : (nat_beq r.id entry_id && is_of id r) ≡ false = ground arith in
        rw (kept, other, other) (Numbered-without n position rows d.1 (rw other at k) later)
  ]

-- Rows in their positions are in the order of their positions.
insert-Numbered :
    (n : ℕ) (r : TrackRow) (rows : List TrackRow)
    → Numbered n (r ∷ rows)
    → insert_by_position r rows ≡ r ∷ rows
unfolding insert_by_position
insert-Numbered n r [] h = refl
insert-Numbered n r (s ∷ rows) h = ground (arith, h.0, h.1.0)

pub order-Numbered :
    (n : ℕ) (rows : List TrackRow) → Numbered n rows → order_by_position rows ≡ rows
unfolding order_by_position
order-Numbered n [] h = refl
order-Numbered n (r ∷ rows) h = rw (order-Numbered (n + 1) rows h.1) (insert-Numbered n r rows h)
