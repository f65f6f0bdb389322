-- ===== src/Chat/Trimming.antt =====
-- What HistoryTrimmer.trim of features/chat/history.py keeps.
use cywl_oopz.Prelude.{
  ℕ, ◌+◌, ◌≤◌, ◌≡◌, refl, sym, ap, ◌∙◌, inl, inr, false, List, [], ◌∷◌, ◌++◌, arith, ltb, leb,
  length, length-append, Bool-cases,
}
use mathlib.Core.List.{reverse, reverse-cons, reverse-append, reverse-reverse, append_assoc}
use cywl_oopz.Chat.History.{ChatMessage, HistoryTrimmer, is_assistant, select, drop_assistant, trim}

-- The characters of all messages.
abbrev pub characters : List ChatMessage → ℕ
characters [] = 0
characters (message ∷ rest) = length message.content + characters rest

-- The history does not open with an answer.
abbrev pub OpensWell : List ChatMessage → Type 0
OpensWell [] = Unit
OpensWell (message ∷ rest) = is_assistant message.role ≡ false

characters-append : (a b : List ChatMessage) → characters (a ++ b) ≡ characters a + characters b
characters-append [] b = omega arith
characters-append (m ∷ a) b = omega (arith, characters-append a b)

characters-reverse : (a : List ChatMessage) → characters (reverse a) ≡ characters a
characters-reverse [] = refl
characters-reverse (m ∷ a) =
    rw reverse-cons (omega (arith, characters-append (reverse a) (m ∷ []), characters-reverse a))

length-reverse {ℓ} : {A : Type ℓ} (a : List A) → length (reverse a) ≡ length a
length-reverse [] = refl
length-reverse (m ∷ a) =
    rw reverse-cons (omega (arith, length-append (reverse a) (m ∷ []), length-reverse a))

module _ (t : HistoryTrimmer) where
  select_prefix :
      (n c : ℕ) (xs : List ChatMessage) → (rest : List ChatMessage) × (xs ≡ select t n c xs ++ rest)
  unfolding select
  select_prefix n c [] = ([], refl)
  select_prefix n c (m ∷ xs) = elim (Bool-cases (leb t.max_messages n)) [
    | inl e ↦ rw e (m ∷ xs, refl)
    | inr e ↦ elim (Bool-cases (ltb t.max_characters (c + length m.content))) [
      | inl f ↦ rw (e, f) (m ∷ xs, refl)
      | inr f ↦
          let (rest, p) = select_prefix (n + 1) (c + length m.content) xs in
          rw (e, f) (rest, ap (λ l. m ∷ l) p)
    ]
  ]

  select_bounds :
      (n c : ℕ) (xs : List ChatMessage)
      → n ≤ t.max_messages
      → c ≤ t.max_characters
      → (n + length (select t n c xs) ≤ t.max_messages)
        × (c + characters (select t n c xs) ≤ t.max_characters)
  unfolding select
  select_bounds n c [] hn hc = (omega arith, omega arith)
  select_bounds n c (m ∷ xs) hn hc = ground (arith, select_bounds (n + 1) (c + length m.content) xs)

  -- Messages that fit are all selected.
  select-append :
      (n c : ℕ) (a b : List ChatMessage)
      → n + length a ≤ t.max_messages
      → c + characters a ≤ t.max_characters
      → select t n c (a ++ b) ≡ a ++ select t (n + length a) (c + characters a) b
  unfolding select
  select-append n c [] b hn hc = grind arith
  select-append n c (m ∷ a) b hn hc =
      grind (arith, select-append (n + 1) (c + length m.content) a b)

drop_assistant_suffix :
    (xs : List ChatMessage) → (dropped : List ChatMessage) × (xs ≡ dropped ++ drop_assistant xs)
unfolding drop_assistant
drop_assistant_suffix [] = ([], refl)
drop_assistant_suffix (m ∷ xs) = elim (Bool-cases (is_assistant m.role)) [
  | inl e ↦ let (d, p) = drop_assistant_suffix xs in rw e (m ∷ d, ap (λ l. m ∷ l) p)
  | inr e ↦ rw e ([], refl)
]

drop_assistant_opens : (xs : List ChatMessage) → OpensWell (drop_assistant xs)
unfolding drop_assistant
drop_assistant_opens [] = tt
drop_assistant_opens (m ∷ xs) = elim (Bool-cases (is_assistant m.role)) [
  | inl e ↦ rw e (drop_assistant_opens xs)
  | inr e ↦ rw e e
]

drop_assistant-append :
    (a b : List ChatMessage) → OpensWell b → drop_assistant (a ++ b) ≡ drop_assistant a ++ b
unfolding drop_assistant
drop_assistant-append [] [] h = refl
drop_assistant-append [] (m ∷ b) h = rw h refl
drop_assistant-append (m ∷ a) b h = ground (arith, drop_assistant-append a b h)

module _ (t : HistoryTrimmer) (messages : List ChatMessage) where
  -- The trimmed history is an end of the history, within both limits, and does not open with an
  -- answer.
  pub trim-fits :
      (older : List ChatMessage) × (messages ≡ older ++ trim t messages)
      × (length (trim t messages) ≤ t.max_messages)
      × (characters (trim t messages) ≤ t.max_characters)
      × OpensWell (trim t messages)
  unfolding trim
  trim-fits =
      let selected = select t 0 0 (reverse messages) in
      let (rest, p) = select_prefix t 0 0 (reverse messages) in
      let (bn, bc) = select_bounds t 0 0 (reverse messages) (omega arith) (omega arith) in
      let (dropped, q) = drop_assistant_suffix (reverse selected) in
      (
        reverse rest ++ dropped,
        sym (reverse-reverse messages)
            ∙ ap reverse p
            ∙ reverse-append selected rest
            ∙ ap (λ l. reverse rest ++ l) q
            ∙ sym (append_assoc (reverse rest) dropped (drop_assistant (reverse selected))),
        omega (
          arith,
          ap length q,
          length-append dropped (drop_assistant (reverse selected)),
          length-reverse selected,
          bn,
        ),
        omega (
          arith,
          ap characters q,
          characters-append dropped (drop_assistant (reverse selected)),
          characters-reverse selected,
          bc,
        ),
        drop_assistant_opens (reverse selected),
      )

  -- Every end of the history within both limits that does not open with an answer is an end of the
  -- trimmed history.
  pub trim_longest :
      (older kept : List ChatMessage)
      → messages ≡ older ++ kept
      → length kept ≤ t.max_messages
      → characters kept ≤ t.max_characters
      → OpensWell kept
      → (before : List ChatMessage) × (trim t messages ≡ before ++ kept)
  unfolding trim
  trim_longest older kept e n c o =
      let more =
        select t (0 + length (reverse kept)) (0 + characters (reverse kept)) (reverse older) in
      (
        drop_assistant (reverse more),
        ap (λ l. drop_assistant (reverse (select t 0 0 l)))
              (ap reverse e ∙ reverse-append older kept)
            ∙ ap (λ l. drop_assistant (reverse l))
                (select-append t 0 0 (reverse kept) (reverse older)
                  (omega (arith, length-reverse kept)) (omega (arith, characters-reverse kept)))
            ∙ ap drop_assistant (
                reverse-append (reverse kept) more
                ∙ ap (λ l. reverse more ++ l) (reverse-reverse kept))
            ∙ drop_assistant-append (reverse more) kept o,
      )
