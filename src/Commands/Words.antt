-- ===== src/Commands/Words.antt =====
-- How parse of commands/parsing.py cuts a message: the texts and their words.
use cywl_oopz.Prelude.{
  ◌≡◌, refl, ap, ◌∙◌, inl, inr, Bool, true, false, not, [], ◌∷◌, ◌++◌, length, drop, nat_beq_iff,
  all, any, ◌||◌, arith, Bool-cases, any-append,
}
use mathlib.Core.List.{reverse, reverse-cons, reverse-reverse}
use cywl_oopz.Prelude.Text.{Text, is_space, lstrip, strip, lstrip_space}
use cywl_oopz.Commands.Parsing.{starts_with, split_word, split_once, is_empty}

abbrev pub is_blank : Text → Bool
is_blank s = all is_space s

-- A nonempty text without space.
abbrev pub IsWord : Text → Type 0
IsWord [] = ⊥
IsWord (c ∷ s) = any is_space (c ∷ s) ≡ false

pub lstrip-split : (s : Text) → (gap : Text) × (is_blank gap ≡ true) × (s ≡ gap ++ lstrip s)
unfolding lstrip
lstrip-split [] = ([], refl, refl)
lstrip-split (c ∷ s) = elim (Bool-cases (is_space c)) [
  | inl e ↦
      let (gap, blank, q) = lstrip-split s in rw e (c ∷ gap, (ground arith), ap (λ l. c ∷ l) q)
  | inr e ↦ rw e ([], refl, refl)
]

-- A text that is empty or begins with space.
abbrev pub leads : Text → Bool
leads [] = true
leads (c ∷ s) = is_space c

-- There is a gap between a word and a rest, if there is a rest.
abbrev pub is_parted : Text → Text → Bool
is_parted gap tail = not (is_empty gap) || is_empty tail

lstrip-parted :
    (s : Text)
    → leads s ≡ true
    → (gap : Text) × (is_blank gap ≡ true)
      × (is_parted gap (lstrip s) ≡ true)
      × (s ≡ gap ++ lstrip s)
unfolding lstrip
lstrip-parted [] h = ([], refl, refl, refl)
lstrip-parted (c ∷ s) h =
    let (gap, blank, q) = lstrip-split s in
    rw h (c ∷ gap, ground (arith, h, blank), refl, ap (λ l. c ∷ l) q)

-- A text that does not begin with space.
abbrev pub is_bare : Text → Bool
is_bare [] = true
is_bare (c ∷ s) = not (is_space c)

is_bare-lstrip : (s : Text) → is_bare (lstrip s) ≡ true
unfolding lstrip
is_bare-lstrip [] = refl
is_bare-lstrip (c ∷ s) = elim (Bool-cases (is_space c)) [
  | inl e ↦ rw e (is_bare-lstrip s)
  | inr e ↦ rw (e, e) refl
]

lstrip-bare : (s : Text) → is_bare s ≡ true → lstrip s ≡ s
unfolding lstrip
lstrip-bare [] h = refl
lstrip-bare (c ∷ s) h = elim (Bool-cases (is_space c)) [
  | inl e ↦ let no : false ≡ true = (rw e at h) in absurd (ground (arith, no))
  | inr e ↦ rw e refl
]

pub lstrip-append : (gap s : Text) → is_blank gap ≡ true → lstrip (gap ++ s) ≡ lstrip s
lstrip-append [] s h = refl
lstrip-append (c ∷ gap) s h = elim (Bool-cases (is_space c)) [
  | inl e ↦
      let rest : is_blank gap ≡ true = (rw e at h) in
      lstrip_space c (gap ++ s) e ∙ lstrip-append gap s rest
  | inr e ↦ let no : false ≡ true = (rw e at h) in absurd (ground (arith, no))
]

leads-append :
    (gap tail : Text) → is_blank gap ≡ true → is_parted gap tail ≡ true → leads (gap ++ tail) ≡ true
leads-append [] [] h k = refl
leads-append [] (c ∷ tail) h k = ground (arith, k)
leads-append (c ∷ gap) tail h k = ground (arith, h)

pub starts_with-drop : (s p : Text) → starts_with s p ≡ true → s ≡ p ++ drop (length p) s
unfolding starts_with
starts_with-drop s [] h = refl
starts_with-drop [] (c ∷ p) h = cc
starts_with-drop (d ∷ s) (c ∷ p) h = ground (arith, nat_beq_iff d c, starts_with-drop s p)

split_word-append : (s : Text) → s ≡ (split_word s).0 ++ (split_word s).1
unfolding split_word
split_word-append [] = refl
split_word-append (c ∷ s) = ground (arith, split_word-append s)

leads-split_word : (s : Text) → leads (split_word s).1 ≡ true
unfolding split_word
leads-split_word [] = refl
leads-split_word (c ∷ s) = elim (Bool-cases (is_space c)) [
  | inl e ↦ rw e e
  | inr e ↦ rw e (leads-split_word s)
]

split_word_free : (s : Text) → any is_space (split_word s).0 ≡ false
unfolding split_word
split_word_free [] = refl
split_word_free (c ∷ s) = ground (arith, split_word_free s)

lstrip_free : (s : Text) → any is_space s ≡ false → lstrip s ≡ s
unfolding lstrip
lstrip_free [] h = refl
lstrip_free (c ∷ s) h = ground arith

any-reverse : (s : Text) → any is_space s ≡ false → any is_space (reverse s) ≡ false
any-reverse [] h = refl
any-reverse (c ∷ s) h =
    rw reverse-cons (ground (arith, any-append is_space (reverse s) (c ∷ []), any-reverse s))

pub strip_free : (s : Text) → any is_space s ≡ false → strip s ≡ s
unfolding strip
strip_free s h =
    rw (lstrip_free s h) (rw (lstrip_free (reverse s) (any-reverse s h)) (reverse-reverse s))

-- How a line without leading space is cut.
pub split_once_lem :
    (line : Text)
    → let (word, tail) = split_once line in
      (gap : Text) × (is_blank gap ≡ true)
      × (is_parted gap tail ≡ true)
      × (is_bare tail ≡ true)
      × (line ≡ word ++ (gap ++ tail))
unfolding split_once
split_once_lem line =
    let (word, rest) = split_word line in
    let (gap, blank, parted, q) = lstrip-parted rest (leads-split_word line) in
    (gap, blank, parted, is_bare-lstrip rest, split_word-append line ∙ ap (λ l. word ++ l) q)

pub split_once_free : (line : Text) → any is_space (split_once line).0 ≡ false
unfolding split_once
split_once_free line = split_word_free line

pub starts_with-append : (p s : Text) → starts_with (p ++ s) p ≡ true
unfolding starts_with
starts_with-append [] s = refl
starts_with-append (c ∷ p) s = ground (arith, nat_beq_iff c c, starts_with-append p s)

pub drop-append : (p s : Text) → drop (length p) (p ++ s) ≡ s
drop-append [] s = refl
drop-append (c ∷ p) s = drop-append p s

split_word-word :
    (word rest : Text)
    → any is_space word ≡ false
    → leads rest ≡ true
    → split_word (word ++ rest) ≡ (word, rest)
unfolding split_word
split_word-word [] [] f l = refl
split_word-word [] (c ∷ rest) f l = rw l refl
split_word-word (c ∷ word) rest f l = ground (arith, f, split_word-word word rest)

pub lstrip-word : (word rest : Text) → IsWord word → lstrip (word ++ rest) ≡ word ++ rest
unfolding lstrip
lstrip-word [] rest w = absurd w
lstrip-word (c ∷ word) rest w = ground (arith, w)

IsWord-free : (word : Text) → IsWord word → any is_space word ≡ false
IsWord-free [] w = refl
IsWord-free (c ∷ word) w = w

pub split_once-word :
    (word gap tail : Text)
    → IsWord word
    → is_blank gap ≡ true
    → is_parted gap tail ≡ true
    → is_bare tail ≡ true
    → split_once (word ++ (gap ++ tail)) ≡ (word, tail)
unfolding split_once
split_once-word word gap tail w blank parted bare =
    rw
      (
        split_word-word word (gap ++ tail) (IsWord-free word w)
            (leads-append gap tail blank parted),
        lstrip-append gap tail blank,
        lstrip-bare tail bare,
      )
      refl
