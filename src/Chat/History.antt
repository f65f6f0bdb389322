-- ===== src/Chat/History.antt =====
-- features/chat/history.py
use cywl_oopz.Prelude.{
  ℕ, ◌+◌, Bool, true, false, List, [], ◌∷◌, if◌then◌else◌, ltb, leb, length, Result, ok, err,
}
use mathlib.Core.List.{reverse}
use cywl_oopz.Prelude.Text.{Text}

pub data ChatRole : Type 0 where
  system user assistant : ChatRole

pub record ChatMessage : Type 0 where
  pub role : ChatRole
  pub content : Text

pub record HistoryTrimmer : Type 0 where
  pub max_messages : ℕ
  pub max_characters : ℕ

pub data ChatInputError : Type 0 where
  chat_input_too_long : ChatInputError

abbrev pub is_assistant : ChatRole → Bool
is_assistant assistant = true
is_assistant _ = false

-- The for loop of trim over the messages from the newest on, with the number of those selected and
-- of their characters; what it appends.
unfoldable pub select : HistoryTrimmer → ℕ → ℕ → List ChatMessage → List ChatMessage
select t selected characters [] = []
select t selected characters (message ∷ rest) =
    let next = characters + length message.content in
    let more = message ∷ select t (selected + 1) next rest in
    if leb t.max_messages selected then [] else if ltb t.max_characters next then [] else more

-- while selected and selected[0].role is ASSISTANT: selected.pop(0)
unfoldable pub drop_assistant : List ChatMessage → List ChatMessage
drop_assistant [] = []
drop_assistant (message ∷ rest) =
    if is_assistant message.role then drop_assistant rest else message ∷ rest

-- HistoryTrimmer.trim
unfoldable pub trim : HistoryTrimmer → List ChatMessage → List ChatMessage
trim t messages = drop_assistant (reverse (select t 0 0 (reverse messages)))

-- HistoryTrimmer.validate_input
unfoldable pub validate_input : HistoryTrimmer → Text → Result ChatInputError (Unit {0})
validate_input t content =
    if ltb t.max_characters (length content) then err chat_input_too_long else ok tt
