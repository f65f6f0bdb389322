-- ===== src/Examples/Commands.antt =====
-- The command parser's theorems at a command with one argument.
use cywl_oopz.Prelude.{◌↔◌, some, ok, ◌+◌, ◌≡◌, refl, ◌&&◌, [], ◌∷◌, map, if◌then◌else◌, leb}
use cywl_oopz.Prelude.Text.{Text, codes, strip, lstrip, is_space}
use cywl_oopz.Commands.Parsing.{split_from, CommandText, CommandTextParser, parse, split}
use cywl_oopz.Commands.Pieces.{parse-some_iff, Cut}

-- Case folding of the ASCII letters.
abbrev casefold : Text → Text
casefold s = map (λ c. if leb 65 c && leb c 90 then c + 32 else c) s

abbrev parser : CommandTextParser
parser = record { prefix = codes "/" }

abbrev command : CommandText
command = record {
  raw = codes "/Play  one song";
  name = codes "play";
  raw_tail = codes "one song";
  tokens = codes "one" ∷ codes "song" ∷ [];
}

parse-some_iff_example :
    (parse casefold parser (codes " /Play  one song ") ≡ ok (some command))
    ↔ Cut casefold parser (codes " /Play  one song ") command
parse-some_iff_example = parse-some_iff casefold parser (codes " /Play  one song ") command

-- The command is that of the message, so both sides of the equivalence hold.
parses : parse casefold parser (codes " /Play  one song ") ≡ ok (some command)
unfolding parse strip lstrip is_space split split_from
parses = refl
