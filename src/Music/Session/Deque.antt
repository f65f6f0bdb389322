-- ===== src/Music/Session/Deque.antt =====
-- collections.deque: popleft and rotate.
use cywl_oopz.Prelude.{ℕ, ◌-◌, ◌%◌, List, [], ◌∷◌, ◌++◌, Option, none, some, length, take, drop}

module _ {ℓ} {A : Type ℓ} where
  unfoldable pub popleft : List A → Option (A × List A)
  popleft [] = none
  popleft (x ∷ xs) = some (x, xs)

  -- deque.rotate(-n)
  unfoldable pub rotate_left : ℕ → List A → List A
  rotate_left n xs = let k = n % length xs in drop k xs ++ take k xs

  -- deque.rotate(n)
  unfoldable pub rotate_right : ℕ → List A → List A
  rotate_right n xs = rotate_left (length xs - n % length xs) xs
