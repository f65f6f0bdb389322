-- ===== src/Music/Shuffle.antt =====
-- What take_next of features/music/session.py leaves behind: its two rotations of the deque take
-- one item out and move nothing else.
use cywl_oopz.Prelude.{
  ℕ, suc, ◌-◌, ◌%◌, ◌≡◌, refl, sym, ap, ◌∙◌, inl, inr, ◌⊎◌, true, List, [], ◌∷◌, ◌++◌, some, arith,
  length, take, drop, length-append, ltb,
}
use mathlib.Core.List.{append-nil}
use native.Mathlib.Nat.{mod-eq_of_lt}
use cywl_oopz.Music.Models.{QueuedTrack, MusicPlaybackPolicy, shuffle}
use cywl_oopz.Music.Session.{Rng, MusicSession, take_from, take_next}
use cywl_oopz.Music.Session.Deque.{rotate_left, rotate_right, popleft}

self_mod : (n : ℕ) → suc n % suc n ≡ 0
self_mod n = grind arith

sub_self_mod : (n : ℕ) → suc n - suc n % suc n ≡ suc n
sub_self_mod n = omega (arith, self_mod n)

module _ {ℓ} {A : Type ℓ} where
  drop-length_append : (a b : List A) → drop (length a) (a ++ b) ≡ b
  drop-length_append [] b = refl
  drop-length_append (x ∷ a) b = drop-length_append a b

  take-length_append : (a b : List A) → take (length a) (a ++ b) ≡ a
  take-length_append [] b = refl
  take-length_append (x ∷ a) b = ap (λ l. x ∷ l) (take-length_append a b)

  rotate_left-all : (b : List A) → rotate_left (length b) b ≡ b
  unfolding rotate_left
  rotate_left-all [] = refl
  rotate_left-all (x ∷ b) = rw (self_mod (length b)) (append-nil (x ∷ b))

  rotate_left-append : (a b : List A) → rotate_left (length a) (a ++ b) ≡ b ++ a
  rotate_left-append a [] = rw (append-nil a) (rotate_left-all a)
  rotate_left-append a (y ∷ b) =
      unfold rotate_left in
      rw
        (mod-eq_of_lt {n = length a} {m = length (a ++ y ∷ b)}
          (omega (arith, length-append a (y ∷ b))))
        (rw (drop-length_append a (y ∷ b)) (rw (take-length_append a (y ∷ b))))

  length_rest : (a b : List A) (x : A) → length (x ∷ (a ++ b)) - length b ≡ length (x ∷ a)
  length_rest a b x = omega (arith, length-append a b)

  rotate_right-append : (a b : List A) → rotate_right (length b) (a ++ b) ≡ b ++ a
  rotate_right-append [] [] = unfold rotate_right rotate_left in refl
  rotate_right-append [] (y ∷ b) =
      unfold rotate_right in
      rw (sub_self_mod (length b)) (rotate_left-all (y ∷ b) ∙ sym (append-nil (y ∷ b)))
  rotate_right-append (x ∷ a) b =
      unfold rotate_right in
      rw
        (mod-eq_of_lt {n = length b} {m = length (x ∷ (a ++ b))} (omega (arith, length-append a b)))
        (rw (length_rest a b x) (rotate_left-append (x ∷ a) b))

is_many :
    (before after : List QueuedTrack) (item : QueuedTrack)
    → (before ≡ []) × (after ≡ []) ⊎ (ltb 1 (length (before ++ item ∷ after)) ≡ true)
is_many [] [] item = inl (refl, refl)
is_many [] (y ∷ after) item = inr (ground arith)
is_many (x ∷ before) after item = inr (ground (arith, length-append before (item ∷ after)))

take_from-shuffle :
    (rng : Rng) (p : MusicPlaybackPolicy) (before after : List QueuedTrack) (item : QueuedTrack)
    → p.order ≡ shuffle
    → rng (length (before ++ item ∷ after)) ≡ length before
    → take_from rng p (before ++ item ∷ after) ≡ some (item, before ++ after)
unfolding take_from popleft
take_from-shuffle rng p before after item o r = elim (is_many before after item) [
  | inl (b, a) ↦ rw (b, a, o) refl
  | inr many ↦
      rw (o, many, r, rotate_left-append before (item ∷ after), rotate_right-append after before)
]

-- In shuffle order, where the generator draws the index of an item, take_next takes that item
-- and keeps the order of the rest.
pub take_next-shuffle :
    (rng : Rng) (s : MusicSession) (before after : List QueuedTrack) (item : QueuedTrack)
    → s.policy.order ≡ shuffle
    → s.queue ≡ before ++ item ∷ after
    → rng (length s.queue) ≡ length before
    → take_next rng s ≡ some (item, record s { queue = before ++ after })
unfolding take_next
take_next-shuffle rng s before after item o q r =
    let taken = take_from-shuffle rng s.policy before after item o (rw q at r) in cc (q, taken)
