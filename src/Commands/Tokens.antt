-- ===== src/Commands/Tokens.antt =====
-- The words into which text.split() cuts a text in commands/parsing.py.
use cywl_oopz.Prelude.{
  ℕ, ◌≡◌, refl, sym, ap, ◌∙◌, inl, inr, true, false, List, [], ◌∷◌, ◌++◌, any, arith, Bool-cases,
}
use mathlib.Core.Path.{subst}
use mathlib.Core.List.{reverse, reverse-cons, append-nil, append_assoc}
use cywl_oopz.Prelude.Text.{Text, is_space}
use cywl_oopz.Commands.Parsing.{split_from, split}
use cywl_oopz.Commands.Words.{is_blank, IsWord, leads}

-- A text of these words, each between space or the ends of the text.
abbrev pub IsSplit : List Text → Text → Type 0
IsSplit [] s = is_blank s ≡ true
IsSplit (w ∷ words) s =
    (before : Text) × (rest : Text) × (is_blank before ≡ true)
    × IsWord w
    × (leads rest ≡ true)
    × (s ≡ before ++ (w ++ rest))
    × IsSplit words rest

split_from-blank : (gap s : Text) → is_blank gap ≡ true → split_from [] (gap ++ s) ≡ split_from [] s
unfolding split_from
split_from-blank [] s h = refl
split_from-blank (c ∷ gap) s h = elim (Bool-cases (is_space c)) [
  | inl e ↦ let rest : is_blank gap ≡ true = (rw e at h) in rw e (split_from-blank gap s rest)
  | inr e ↦ let no : false ≡ true = (rw e at h) in absurd (ground (arith, no))
]

split_from-word :
    (c : ℕ) (acc v rest : Text)
    → any is_space v ≡ false
    → leads rest ≡ true
    → split_from (c ∷ acc) (v ++ rest) ≡ (reverse (c ∷ acc) ++ v) ∷ split_from [] rest
unfolding split_from
split_from-word c acc [] [] f l = ap (λ w. w ∷ []) (sym (append-nil _))
split_from-word c acc [] (d ∷ rest) f l =
    rw l (ap (λ w. w ∷ split_from [] rest) (sym (append-nil _)))
split_from-word c acc (d ∷ v) rest f l = elim (Bool-cases (is_space d)) [
  | inl e ↦ let no : true ≡ false = (rw e at f) in absurd (ground (arith, no))
  | inr e ↦
      let free : any is_space v ≡ false = (rw e at f) in
      rw e (
        split_from-word d (c ∷ acc) v rest free l
        ∙ ap (λ w. w ∷ split_from [] rest)
            (ap (λ u. u ++ v) (reverse-cons d (c ∷ acc))
              ∙ append_assoc (reverse (c ∷ acc)) (d ∷ []) v))
]

IsSplit-word :
    (w rest : Text)
    → IsWord w
    → leads rest ≡ true
    → split_from [] (w ++ rest) ≡ w ∷ split_from [] rest
unfolding split_from
IsSplit-word [] rest w l = absurd w
IsSplit-word (c ∷ v) rest w l = elim (Bool-cases (is_space c)) [
  | inl e ↦ let no : true ≡ false = (rw e at w) in absurd (ground (arith, no))
  | inr e ↦
      let free : any is_space v ≡ false = (rw e at w) in rw e (split_from-word c [] v rest free l)
]

-- The words of a text are those that split gives.
pub IsSplit-split : (words : List Text) (s : Text) → IsSplit words s → split s ≡ words
unfolding split
IsSplit-split [] s h =
    ap (split_from []) (sym (append-nil _)) ∙ split_from-blank s [] h ∙ unfold split_from in refl
IsSplit-split (w ∷ words) s (before, rest, blank, word, l, q, h) =
    ap (split_from []) q
    ∙ split_from-blank before (w ++ rest) blank
    ∙ IsSplit-word w rest word l
    ∙ ap (λ ts. w ∷ ts) (IsSplit-split words rest h)

-- A text that does not begin with space begins with its first word.
IsSplit-head :
    (d : ℕ) (s : Text) (words : List Text)
    → is_space d ≡ false
    → IsSplit words (d ∷ s)
    → (w : Text) × (more : List Text) × (rest : Text) × (words ≡ w ∷ more)
      × IsWord w
      × (leads rest ≡ true)
      × (d ∷ s ≡ w ++ rest)
      × IsSplit more rest
IsSplit-head d s [] e h = absurd (ground (arith, e, h))
IsSplit-head d s (w ∷ words) e ([], rest, blank, word, l, q, h) =
    (w, words, rest, refl, word, l, q, h)
IsSplit-head d s (w ∷ words) e (b ∷ before, rest, blank, word, l, q, h) =
    absurd (ground (arith, e, blank, q))

IsWord-cons : (c : ℕ) (w : Text) → is_space c ≡ false → IsWord w → IsWord (c ∷ w)
IsWord-cons c [] e w = absurd w
IsWord-cons c (d ∷ v) e w = ground (arith, e, w)

IsSplit-space :
    (c : ℕ) (s : Text) (words : List Text)
    → is_space c ≡ true
    → IsSplit words s
    → IsSplit words (c ∷ s)
IsSplit-space c s [] e h = ground (arith, e, h)
IsSplit-space c s (w ∷ words) e (before, rest, blank, word, l, q, h) =
    (c ∷ before, rest, ground (arith, e, blank), word, l, ap (λ t. c ∷ t) q, h)

IsSplit-other :
    (c : ℕ) (s : Text) (words : List Text)
    → is_space c ≡ false
    → IsSplit words s
    → (more : List Text) × IsSplit more (c ∷ s)
IsSplit-other c [] words e h = ((c ∷ []) ∷ words, ([], [], refl, ground (arith, e), refl, refl, h))
IsSplit-other c (d ∷ s) words e h = elim (Bool-cases (is_space d)) [
  | inl space ↦ ((c ∷ []) ∷ words, ([], d ∷ s, refl, ground (arith, e), space, refl, h))
  | inr other ↦
      let (w, more, rest, same, word, l, q, k) = IsSplit-head d s words other h in
      ((c ∷ w) ∷ more, ([], rest, refl, IsWord-cons c w e word, l, ap (λ t. c ∷ t) q, k))
]

some-IsSplit : (s : Text) → (words : List Text) × IsSplit words s
some-IsSplit [] = ([], refl)
some-IsSplit (c ∷ s) =
    let (words, h) = some-IsSplit s in
    elim (Bool-cases (is_space c)) [
      | inl e ↦ (words, IsSplit-space c s words e h)
      | inr e ↦ IsSplit-other c s words e h
    ]

pub split-IsSplit : (s : Text) → IsSplit (split s) s
split-IsSplit s =
    let (words, h) = some-IsSplit s in subst (λ ts. IsSplit ts s) (sym (IsSplit-split words s h)) h
