-- ===== src/Prelude/Text.antt =====
-- Python's str as the list of its code points, with strip and len.
use cywl_oopz.Prelude.Tests.{if◌then◌else◌, Bool-cases, leb, nat_beq}
use Prim.Native.Nat.{ℕ}
use mathlib.Core.Path.{◌≡◌, refl}
use mathlib.Core.Logic.{inl, inr}
use Prim.Native.Char.{code}
use Prim.Native.String.{String}
use mathlib.Core.Bool.{Bool, true, false, ◌&&◌, ◌||◌}
use mathlib.Core.List.{List, [], ◌∷◌, ◌++◌, reverse, reverse-cons, reverse-append, reverse-reverse}

abbrev pub Text : Type 0
Text = List ℕ

-- A literal's code points.
abbrev pub codes : String → Text
codes String.[] = []
codes (String.◌∷◌ c s) = code c ∷ codes s

-- str.isspace of one character.
unfoldable pub is_space : ℕ → Bool
is_space c =
    (leb 9 c && leb c 13)
    || (leb 28 c && leb c 32)
    || nat_beq c 133
    || nat_beq c 160
    || nat_beq c 5760
    || (leb 8192 c && leb c 8202)
    || nat_beq c 8232
    || nat_beq c 8233
    || nat_beq c 8239
    || nat_beq c 8287
    || nat_beq c 12288

-- value.lstrip()
unfoldable pub lstrip : Text → Text
unfolding is_space
lstrip [] = []
lstrip (c ∷ s) = if is_space c then lstrip s else c ∷ s

-- value.strip()
unfoldable pub strip : Text → Text
unfolding lstrip
strip s = reverse (lstrip (reverse (lstrip s)))

pub lstrip_space : (c : ℕ) (s : Text) → is_space c ≡ true → lstrip (c ∷ s) ≡ lstrip s
unfolding lstrip
lstrip_space c s e = rw e

lstrip_other : (c : ℕ) (s : Text) → is_space c ≡ false → lstrip (c ∷ s) ≡ c ∷ s
unfolding lstrip
lstrip_other c s e = rw e

lstrip_idem : (s : Text) → lstrip (lstrip s) ≡ lstrip s
unfolding lstrip
lstrip_idem [] = refl
lstrip_idem (c ∷ s) = elim (Bool-cases (is_space c)) [
  | inl e ↦ rw e (lstrip_idem s)
  | inr e ↦ rw e (rw e)
]

lstrip-snoc : (c : ℕ) (s : Text) → is_space c ≡ false → lstrip (s ++ c ∷ []) ≡ lstrip s ++ c ∷ []
unfolding lstrip
lstrip-snoc c [] h = rw h
lstrip-snoc c (d ∷ s) h = elim (Bool-cases (is_space d)) [
  | inl e ↦ rw e (lstrip-snoc c s h)
  | inr e ↦ rw e
]

abbrev rstrip : Text → Text
rstrip s = reverse (lstrip (reverse s))

lstrip-rstrip_cons :
    (c : ℕ) (t : Text) → is_space c ≡ false → lstrip (rstrip (c ∷ t)) ≡ rstrip (c ∷ t)
lstrip-rstrip_cons c t e =
    rw reverse-cons (rw (lstrip-snoc c (reverse t) e) (rw reverse-append (unfold lstrip in rw e)))

-- Stripping the end of a text whose start is stripped leaves the start alone.
lstrip-rstrip-lstrip : (s : Text) → lstrip (rstrip (lstrip s)) ≡ rstrip (lstrip s)
lstrip-rstrip-lstrip [] = unfold lstrip in refl
lstrip-rstrip-lstrip (c ∷ s) = elim (Bool-cases (is_space c)) [
  | inl e ↦ rw (lstrip_space c s e) (lstrip-rstrip-lstrip s)
  | inr e ↦ rw (lstrip_other c s e) (lstrip-rstrip_cons c s e)
]

-- strip is idempotent: a normalised identifier is normalised again to itself.
pub strip_idem : (s : Text) → strip (strip s) ≡ strip s
unfolding strip
strip_idem s =
    rw (lstrip-rstrip-lstrip s) (rw reverse-reverse (rw (lstrip_idem (reverse (lstrip s)))))
