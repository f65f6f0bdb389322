-- ===== src/Music/Sums.antt =====
-- Sums over a queue, which taking a track out of it by features/music/session.py splits.
use cywl_oopz.Prelude.{
  ℕ, zero, suc, ◌+◌, ◌-◌, ◌%◌, ◌≡◌, inl, inr, List, [], ◌∷◌, ◌++◌, some, arith, Option-cases,
  length, take, drop, nat_eq,
}
use cywl_oopz.Music.Models.{QueuedTrack, MusicPlaybackPolicy}
use cywl_oopz.Music.Session.{MusicSession, Rng, take_from, take_next}
use cywl_oopz.Music.Session.Deque.{rotate_left, rotate_right, popleft}

module _ {ℓ} {A : Type ℓ} (f : A → ℕ) where
  abbrev pub sum : List A → ℕ
  sum [] = 0
  sum (x ∷ xs) = f x + sum xs

  sum-append : (xs ys : List A) → sum (xs ++ ys) ≡ sum xs + sum ys
  sum-append [] ys = omega arith
  sum-append (x ∷ xs) ys = omega (arith, sum-append xs ys)

  sum-take-drop : (n : ℕ) (xs : List A) → sum (drop n xs) + sum (take n xs) ≡ sum xs
  sum-take-drop zero xs = omega arith
  sum-take-drop (suc n) [] = omega arith
  sum-take-drop (suc n) (x ∷ xs) = omega (arith, sum-take-drop n xs)

  sum-rotate_left : (n : ℕ) (xs : List A) → sum (rotate_left n xs) ≡ sum xs
  unfolding rotate_left
  sum-rotate_left n xs =
      let k = n % length xs in omega (arith, sum-append (drop k xs) (take k xs), sum-take-drop k xs)

  sum-rotate_right : (n : ℕ) (xs : List A) → sum (rotate_right n xs) ≡ sum xs
  unfolding rotate_right
  sum-rotate_right n xs = sum-rotate_left (length xs - n % length xs) xs

  sum-popleft :
      (xs : List A) (x : A) (rest : List A) → popleft xs ≡ some (x, rest) → sum xs ≡ f x + sum rest
  unfolding popleft
  sum-popleft [] x rest h = cc
  sum-popleft (y ∷ xs) x rest h = ground arith

-- Whatever index is drawn, take_next only takes one track out.
sum-take_from :
    (f : QueuedTrack → ℕ) (rng : Rng) (p : MusicPlaybackPolicy) (q : List QueuedTrack)
    (item : QueuedTrack) (rest : List QueuedTrack)
    → take_from rng p q ≡ some (item, rest)
    → sum f q ≡ f item + sum f rest
unfolding take_from
sum-take_from f rng p q item rest h =
    let index = rng (length q) in
    elim (Option-cases (popleft (rotate_left index q))) [
      | inl empty ↦ ground (arith, sum-popleft f q item rest)
      | inr ((x, left), took) ↦ ground (
        arith,
        sum-popleft f q item rest,
        sum-popleft f (rotate_left index q) x left took,
        sum-rotate_left f index q,
        sum-rotate_right f index left,
      )
    ]

-- take_next takes one track out, and the generator cannot make it do anything else.
pub take_next-sum :
    (rng : Rng) (s : MusicSession) (item : QueuedTrack) (t : MusicSession)
    → take_next rng s ≡ some (item, t)
    → (t ≡ record s { queue = t.queue })
      × ((f : QueuedTrack → ℕ) → sum f s.queue ≡ f item + sum f t.queue)
unfolding take_next
take_next-sum rng s item t h = elim (Option-cases (take_from rng s.policy s.queue)) [
  | inl e ↦ cc e
  | inr ((x, rest), e) ↦
      (ground arith, λ f. ground (arith, sum-take_from f rng s.policy s.queue x rest e))
]
