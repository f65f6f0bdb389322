-- ===== src/Commands/Parsing.antt =====
-- commands/parsing.py, with the str methods that it calls.
use cywl_oopz.Prelude.{
  Bool, true, false, ◌&&◌, List, [], ◌∷◌, Option, none, some, if◌then◌else◌, length, drop, nat_beq,
  Result, ok, err,
}
use mathlib.Core.List.{reverse}
use cywl_oopz.Prelude.Text.{Text, is_space, lstrip, strip}

pub record CommandText : Type 0 where
  pub raw : Text
  pub name : Text
  pub raw_tail : Text
  pub tokens : List Text

-- The ValueErrors.
pub data CommandError : Type 0 where
  empty_prefix empty_name : CommandError

pub record CommandTextParser : Type 0 where
  pub prefix : Text

-- CommandTextParser.__init__
unfoldable pub make_parser : Text → Result CommandError CommandTextParser
make_parser [] = err empty_prefix
make_parser (c ∷ prefix) = ok (record { prefix = c ∷ prefix })

abbrev pub is_empty : Text → Bool
is_empty [] = true
is_empty (c ∷ s) = false

-- text.startswith(prefix)
unfoldable pub starts_with : Text → Text → Bool
starts_with text [] = true
starts_with [] (c ∷ prefix) = false
starts_with (d ∷ text) (c ∷ prefix) = nat_beq d c && starts_with text prefix

-- The first word of a text, and what follows it.
unfoldable pub split_word : Text → Text × Text
split_word [] = ([], [])
split_word (c ∷ s) =
    let rest = split_word s in if is_space c then ([], c ∷ s) else (c ∷ rest.0, rest.1)

-- text.split() of a text after a word that is being read.
unfoldable pub split_from : Text → Text → List Text
split_from [] [] = []
split_from (w ∷ word) [] = reverse (w ∷ word) ∷ []
split_from [] (c ∷ s) = if is_space c then split_from [] s else split_from (c ∷ []) s
split_from (w ∷ word) (c ∷ s) =
    if is_space c then reverse (w ∷ word) ∷ split_from [] s else split_from (c ∷ w ∷ word) s

unfoldable pub split : Text → List Text
split s = split_from [] s

-- command_line.split(maxsplit=1) of a line without leading space: its first part, and its second
-- part or the empty text. The first is empty when there are no parts.
unfoldable pub split_once : Text → Text × Text
unfolding split_word
split_once line = let (word, rest) = split_word line in (word, lstrip rest)

module _ (casefold : Text → Text) where
  abbrev folded : Text → Text → Text → List Text → Result CommandError CommandText
  folded [] raw raw_tail tokens = err empty_name
  folded (c ∷ name) raw raw_tail tokens =
      ok (record { raw = raw; name = c ∷ name; raw_tail = raw_tail; tokens = tokens })

  -- CommandText.__post_init__
  unfoldable pub make_command : Text → Text → Text → List Text → Result CommandError CommandText
  make_command raw name raw_tail tokens = folded (casefold (strip name)) raw raw_tail tokens

  abbrev found : Result CommandError CommandText → Result CommandError (Option CommandText)
  found (err e) = err e
  found (ok command) = ok (some command)

  abbrev pub named : Text → Text × Text → Result CommandError (Option CommandText)
  named content ([], raw_tail) = ok none
  named content (c ∷ word, raw_tail) =
      found (make_command content (c ∷ word) raw_tail (split raw_tail))

  -- CommandTextParser.parse; `casefold` is str.casefold.
  unfoldable pub parse : CommandTextParser → Text → Result CommandError (Option CommandText)
  unfolding starts_with split_once make_command
  parse p text =
      let content = strip text in
      if starts_with content p.prefix
      then named content (split_once (lstrip (drop (length p.prefix) content)))
      else ok none
