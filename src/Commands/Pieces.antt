-- ===== src/Commands/Pieces.antt =====
-- The pieces of a command's text that parse of commands/parsing.py tells apart.
use cywl_oopz.Prelude.{
  List, ℕ, ◌≡◌, refl, sym, ap, ◌∙◌, inl, inr, true, false, not, [], ◌∷◌, ◌++◌, Option, none, some,
  length, drop, any, ◌↔◌, arith, Bool-cases, ◌⊎◌, ok,
}
use cywl_oopz.Prelude.Text.{Text, is_space, lstrip, strip, strip_idem}
use cywl_oopz.Commands.Parsing.{
  CommandText, CommandTextParser, starts_with, split_once, split, parse, named, make_command,
  is_empty,
}
use mathlib.Core.Path.{subst}
use cywl_oopz.Commands.Tokens.{IsSplit, IsSplit-split, split-IsSplit}
use cywl_oopz.Commands.Words.{
  is_blank, IsWord, lstrip-split, is_parted, is_bare, lstrip-append, starts_with-drop, strip_free,
  split_once_lem, split_once_free, starts_with-append, drop-append, lstrip-word, split_once-word,
}

Text-cases : (s : Text) → (s ≡ []) ⊎ ((c : ℕ) × (t : Text) × (s ≡ c ∷ t))
Text-cases [] = inl refl
Text-cases (c ∷ s) = inr (c, s, refl)

-- What a command holds that is made of a word.
abbrev Holds : (Text → Text) → Text → Text → Text → CommandText → Type 0
Holds casefold content word tail command =
    IsWord word
    × (command.name ≡ casefold word)
    × (is_empty command.name ≡ false)
    × (command.raw ≡ content)
    × (command.raw_tail ≡ tail)
    × (command.tokens ≡ split tail)

named_lem :
    (casefold : Text → Text) (content word tail : Text) (command : CommandText)
    → any is_space word ≡ false
    → named casefold content (word, tail) ≡ ok (some command)
    → Holds casefold content word tail command
unfolding make_command
named_lem casefold content [] tail command f h = absurd (ground arith)
named_lem casefold content (c ∷ word) tail command f h =
    let same : casefold (strip (c ∷ word)) ≡ casefold (c ∷ word) =
      ap casefold (strip_free (c ∷ word) f) in
    elim (Text-cases (casefold (strip (c ∷ word)))) [
      | inl e ↦ absurd (ground arith)
      | inr (d, t, e) ↦ ground arith
    ]

named_total :
    (casefold : Text → Text) (content word tail : Text)
    → ((c : ℕ) (s : Text) → not (is_empty (casefold (c ∷ s))) ≡ true)
    → any is_space word ≡ false
    → (result : Option CommandText) × (named casefold content (word, tail) ≡ ok result)
unfolding make_command
named_total casefold content [] tail keeps f = (none, refl)
named_total casefold content (c ∷ word) tail keeps f = elim (Text-cases (casefold (c ∷ word))) [
  | inl e ↦ absurd (ground (arith, keeps c word))
  | inr (d, t, e) ↦ rw (strip_free (c ∷ word) f, e) (_, refl)
]

module _ (casefold : Text → Text) (p : CommandTextParser) (text : Text) where
  -- Space around a message does not change its command.
  parse-strip : parse casefold p (strip text) ≡ parse casefold p text
  unfolding parse
  parse-strip = rw (strip_idem text) refl

  -- Where case folding keeps a name nonempty, no message makes the parser raise.
  parse_total :
      ((c : ℕ) (s : Text) → not (is_empty (casefold (c ∷ s))) ≡ true)
      → (result : Option CommandText) × (parse casefold p text ≡ ok result)
  unfolding parse
  parse_total keeps =
      let line = lstrip (drop (length p.prefix) (strip text)) in
      let pieces = split_once line in
      elim (Bool-cases (starts_with (strip text) p.prefix)) [
        | inr e ↦ rw e (none, refl)
        | inl e ↦
            rw e (named_total casefold (strip text) pieces.0 pieces.1 keeps (split_once_free line))
      ]

named-word :
    (casefold : Text → Text) (content word tail : Text)
    → IsWord word
    → is_empty (casefold word) ≡ false
    → named casefold content (word, tail)
      ≡ ok (
          some
            (record { raw = content; name = casefold word; raw_tail = tail; tokens = split tail }))
unfolding make_command
named-word casefold content [] tail w k = absurd w
named-word casefold content (d ∷ word) tail w k = elim (Text-cases (casefold (d ∷ word))) [
  | inl e ↦ absurd (ground (arith, k, e))
  | inr (c, folded, e) ↦ rw (strip_free (d ∷ word) w, e) refl
]

remade :
    (command : CommandText) (raw name : Text) (tokens : List Text)
    → command.raw ≡ raw
    → command.name ≡ name
    → command.tokens ≡ tokens
    → command ≡ record { raw = raw; name = name; raw_tail = command.raw_tail; tokens = tokens }
remade command raw name tokens r n t = cc (r, n, t)

-- The stripped message is the prefix, space, a whole word, and a rest that is parted from it by
-- space and has none in front; the command is made of the word, the rest and the rest's words.
pub record IsCut (casefold : Text → Text) (prefix content : Text) (command : CommandText)
    (word before after : Text) : Type 0 where
  pub is_word : IsWord word
  pub blank_before : is_blank before ≡ true
  pub blank_after : is_blank after ≡ true
  pub parted : is_parted after command.raw_tail ≡ true
  pub bare : is_bare command.raw_tail ≡ true
  pub whole : content ≡ prefix ++ (before ++ (word ++ (after ++ command.raw_tail)))
  pub name : command.name ≡ casefold word
  pub is_named : is_empty command.name ≡ false
  pub raw : command.raw ≡ content
  pub tokens : IsSplit command.tokens command.raw_tail

module _ (casefold : Text → Text) (p : CommandTextParser) (text : Text)
    (command : CommandText) where
  abbrev pub Cut : Type 0
  Cut =
      (word : Text) × (before : Text) × (after : Text) × IsCut casefold p.prefix (strip text)
        command word before after

  parse-cut : parse casefold p text ≡ ok (some command) → Cut
  unfolding parse
  parse-cut h = elim (Bool-cases (starts_with (strip text) p.prefix)) [
    | inr e ↦ absurd (ground arith)
    | inl e ↦
        let line = lstrip (drop (length p.prefix) (strip text)) in
        let pieces = split_once line in
        let (before, blank, q) = lstrip-split (drop (length p.prefix) (strip text)) in
        let (after, blank', parted, bare, q') = split_once_lem line in
        let (w, name, named, raw, tail, tokens) =
          named_lem casefold (strip text) pieces.0 pieces.1 command (split_once_free line)
            (ground arith) in
        (
          pieces.0,
          before,
          after,
          record {
            is_word = w;
            blank_before = blank;
            blank_after = blank';
            parted = rw tail parted;
            bare = rw tail bare;
            whole =
                starts_with-drop (strip text) p.prefix e
                ∙ ap (λ l. p.prefix ++ l) q
                ∙ ap (λ l. p.prefix ++ (before ++ l)) q'
                ∙ ap (λ l. p.prefix ++ (before ++ (pieces.0 ++ (after ++ l)))) (sym tail);
            name = name;
            is_named = named;
            raw = raw;
            tokens =
                subst (λ ts. IsSplit ts command.raw_tail) (sym (tokens ∙ ap split (sym tail)))
                  (split-IsSplit command.raw_tail);
          },
        )
  ]

  cut-parse : Cut → parse casefold p text ≡ ok (some command)
  unfolding parse
  cut-parse (word, before, after, c) =
      let rest = word ++ (after ++ command.raw_tail) in
      let bare =
        lstrip-append before rest c.blank_before
        ∙ lstrip-word word (after ++ command.raw_tail) c.is_word in
      rw
        (
          c.whole,
          starts_with-append p.prefix (before ++ rest),
          drop-append p.prefix (before ++ rest),
          bare,
          split_once-word word after command.raw_tail c.is_word c.blank_after c.parted c.bare,
        )
        (named-word casefold (p.prefix ++ (before ++ rest)) word command.raw_tail c.is_word
            (ap is_empty (sym c.name) ∙ c.is_named)
          ∙ ap (λ d. ok (some d))
              (sym (
                remade command (p.prefix ++ (before ++ rest)) (casefold word)
                  (split command.raw_tail) (c.raw ∙ c.whole) c.name
                  (sym (IsSplit-split command.tokens command.raw_tail c.tokens)))))

  -- A message is parsed to a command exactly when the stripped message is the prefix, any space, the
  -- word before the next space, any space, and the command's rest, which begins with no space; the
  -- command's name is then the word, case folded and not empty, its raw text is the stripped message
  -- and its tokens are the words between space in the rest.
  pub parse-some_iff : (parse casefold p text ≡ ok (some command)) ↔ Cut
  parse-some_iff = (parse-cut, cut-parse)
