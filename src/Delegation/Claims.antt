-- ===== src/Delegation/Claims.antt =====
-- What claim_next and recover_stale of features/agent/delegation/repository.py promise.
use mathlib.Core.Path.{subst}
use cywl_oopz.Prelude.{
  ℕ, ◌+◌, ◌≤◌, ◌≡◌, ◌≢◌, refl, sym, ◌∙◌, inl, inr, ◌⊎◌, Bool, true, false, not, ◌&&◌, ◌||◌, List,
  [], ◌∷◌, ◌++◌, Option, none, some, arith, any, all, keep, count, length, length-append, map, leb,
  ltb, nat_beq, Bool-cases, ok, nat_eq, list_eq,
}
use cywl_oopz.Prelude.Text.{Text, strip}
use cywl_oopz.Commands.Parsing.{is_empty}
use cywl_oopz.Delegation.Models.{DelegatedTaskLane, DelegatedAgentTask, TaskRow, is_held}
use cywl_oopz.Delegation.Rows.{
  Rows, first, insert_by, order_by, is_claimable, claim_row, claim_found, next_claim, claim_next,
  update, has_id,
}
use cywl_oopz.Delegation.Notices.{
  recover_stale, recover_row, is_stale, is_stale_read, is_stale_cancel, is_stale_mutation, id_of,
}
use cywl_oopz.Delegation.Lifecycle.{Holds}
use cywl_oopz.Delegation.Held.{Holds-keep, Holds-order_by, Holds-first}

-- The rows that a claim may take.
abbrev pub is_free : ℕ → (ℕ → Bool) → List DelegatedTaskLane → List Text → TaskRow → Bool
is_free now locked lanes excluded r = is_claimable now lanes excluded r && not (locked r.task.id)

abbrev pub created : TaskRow → ℕ
created r = r.task.created_at

-- No row of a predicate is older.
abbrev pub is_oldest : (TaskRow → Bool) → Rows → TaskRow → Bool
is_oldest p rows r = all (λ s. not (p s) || leb (created r) (created s)) rows

all-keep :
    (p q : TaskRow → Bool) (rows : Rows) → all q (keep p rows) ≡ all (λ s. not (p s) || q s) rows
all-keep p q [] = refl
all-keep p q (r ∷ rows) = ground (arith, all-keep p q rows)

all_below :
    (key : TaskRow → ℕ) (m n : ℕ) (rows : Rows)
    → m ≤ n
    → all (λ s. leb n (key s)) rows ≡ true
    → all (λ s. leb m (key s)) rows ≡ true
all_below key m n [] h a = refl
all_below key m n (r ∷ rows) h a = ground (arith, all_below key m n rows)

first-insert_by :
    (key : TaskRow → ℕ) (s r : TaskRow) (rows : Rows)
    → first (insert_by key s rows) ≡ some r
    → ((first rows ≡ none) × (s ≡ r))
      ⊎ ((t : TaskRow) × (first rows ≡ some t)
          × (((s ≡ r) × (key s ≤ key t)) ⊎ ((t ≡ r) × (key t ≤ key s))))
unfolding insert_by
first-insert_by key s r [] h = inl (refl, cc)
first-insert_by key s r (t ∷ rows) h = elim (Bool-cases (leb (key s) (key t))) [
  | inl e ↦ inr (t, refl, inl (ground arith, ground arith))
  | inr e ↦ inr (t, refl, inr (ground arith, ground arith))
]

first-insert_by_some :
    (key : TaskRow → ℕ) (r : TaskRow) (rows : Rows) → first (insert_by key r rows) ≢ none
unfolding insert_by
first-insert_by_some key r [] h = cc
first-insert_by_some key r (s ∷ rows) h = ground arith

order_by-nil : (key : TaskRow → ℕ) (rows : Rows) → first (order_by key rows) ≡ none → rows ≡ []
unfolding order_by insert_by
order_by-nil key [] h = refl
order_by-nil key (r ∷ rows) h = absurd (first-insert_by_some key r (order_by key rows) h)

first-order_by :
    (key : TaskRow → ℕ) (rows : Rows) (r : TaskRow)
    → first (order_by key rows) ≡ some r
    → all (λ s. leb (key r) (key s)) rows ≡ true
unfolding order_by
first-order_by key [] r h = refl
first-order_by key (s ∷ rows) r h = elim (first-insert_by key s r (order_by key rows) h) [
  | inl (e, same) ↦ rw (order_by-nil key rows e, same) (ground arith)
  | inr (t, e, inl (same, below)) ↦
      let rest = all_below key (key s) (key t) rows below (first-order_by key rows t e) in
      subst (λ (u : TaskRow). all (λ v. leb (key u) (key v)) (s ∷ rows) ≡ true) same (ground arith)
  | inr (t, e, inr (same, below)) ↦
      let rest = first-order_by key rows t e in
      subst (λ (u : TaskRow). all (λ v. leb (key u) (key v)) (s ∷ rows) ≡ true) same (ground arith)
]

any-keep : (p : TaskRow → Bool) (rows : Rows) → keep p rows ≡ [] → any p rows ≡ false
any-keep p [] h = refl
any-keep p (r ∷ rows) h = elim (Bool-cases (p r)) [
  | inl e ↦ absurd (ground arith)
  | inr e ↦ ground (arith, any-keep p rows)
]

-- What a claim may answer: no row was free, and nothing changes, or the oldest free row is marked as
-- run by the worker, and its task is given.
abbrev pub IsAnswer : (TaskRow → Bool) → ℕ → Text → Rows → Option DelegatedAgentTask → Rows → Type 0
IsAnswer p now worker rows none rows' = (any p rows ≡ false) × (rows' ≡ rows)
IsAnswer p now worker rows (some t) rows' =
    (r : TaskRow) × Holds r rows
    × (p r ≡ true)
    × (is_oldest p rows r ≡ true)
    × (t ≡ (claim_row now worker r).task)
    × (rows' ≡ update (has_id t.id) (claim_row now worker) rows)

claim_found-IsAnswer :
    (now : ℕ) (locked : ℕ → Bool) (worker : Text) (lanes : List DelegatedTaskLane)
    (excluded : List Text) (rows : Rows) (found : Option TaskRow)
    → next_claim now locked lanes excluded rows ≡ found
    → IsAnswer
        (is_free now locked lanes excluded)
        now
        worker
        rows
        (claim_found now worker rows found).0
        (claim_found now worker rows found).1
unfolding next_claim
claim_found-IsAnswer now locked worker lanes excluded rows none h =
    let p = is_free now locked lanes excluded in
    (any-keep p rows (order_by-nil created (keep p rows) h), refl)
claim_found-IsAnswer now locked worker lanes excluded rows (some r) h =
    let p = is_free now locked lanes excluded in
    let (held, free) =
      Holds-keep p r rows (
        Holds-order_by created r (keep p rows)
          (Holds-first r (order_by created (keep p rows)) h)) in
    let oldest =
      sym (all-keep p (λ s. leb (created r) (created s)) rows)
      ∙ first-order_by created (keep p rows) r h in
    (r, held, free, oldest, refl, refl)

-- A claim is refused only for a bad argument. It takes the oldest task that waits, is due, lies in
-- one of the lanes, belongs to nobody excluded and is locked by nobody else; it answers that there is
-- no task only where there is none.
pub claim_next-IsAnswer :
    (now : ℕ) (locked : ℕ → Bool) (worker : Text) (lanes : List DelegatedTaskLane)
    (excluded : List Text) (rows : Rows)
    → is_empty (strip worker) || ltb 128 (length (strip worker)) || nat_beq (length lanes) 0 ≡ false
    → (answer : Option DelegatedAgentTask) × (rows' : Rows) × (claim_next now locked worker lanes
          excluded rows
        ≡ ok (answer, rows'))
      × IsAnswer (is_free now locked lanes excluded) now (strip worker) rows answer rows'
unfolding claim_next
claim_next-IsAnswer now locked worker lanes excluded rows h =
    let found = next_claim now locked lanes excluded rows in
    let answer = claim_found now (strip worker) rows found in
    (
      answer.0,
      answer.1,
      rw h refl,
      claim_found-IsAnswer now locked (strip worker) lanes excluded rows found refl,
    )

freed :
    (now : ℕ) (locked : ℕ → Bool) (r : TaskRow)
    → is_stale locked r ≡ true
    → is_held (recover_row now r).task.status ≡ false
freed now locked r h = ground arith

held_locked :
    (now : ℕ) (locked : ℕ → Bool) (rows : Rows)
    → count (λ r. is_held r.task.status) (update (is_stale locked) (recover_row now) rows)
      ≡ count (λ r. is_held r.task.status && locked r.task.id) rows
unfolding update
held_locked now locked [] = refl
held_locked now locked (r ∷ rows) = elim (Bool-cases (is_stale locked r)) [
  | inl e ↦ rw e (ground (arith, freed now locked r e, held_locked now locked rows))
  | inr e ↦ rw e (ground (arith, held_locked now locked rows))
]

length-keep : (p : TaskRow → Bool) (rows : Rows) → length (map id_of (keep p rows)) ≡ count p rows
length-keep p [] = refl
length-keep p (r ∷ rows) = ground (arith, length-keep p rows)

partition :
    (locked : ℕ → Bool) (rows : Rows)
    → count (is_stale_read locked) rows
        + count (is_stale_cancel locked) rows
        + count (is_stale_mutation locked) rows
        + count (λ r. is_held r.task.status && locked r.task.id) rows
      ≡ count (λ r. is_held r.task.status) rows
partition locked [] = refl
partition locked (r ∷ rows) = ground (arith, partition locked rows)

-- After a recovery no task is held by a worker but those that another transaction has locked, and
-- the three numbers of its summary count every task that it took back once.
pub recover_stale_frees :
    (now : ℕ) (locked : ℕ → Bool) (rows : Rows)
    → let (summary, rows') = recover_stale now locked rows in
      (count (λ r. is_held r.task.status) rows'
        ≡ count (λ r. is_held r.task.status && locked r.task.id) rows)
      × (summary.requeued
            + summary.cancelled
            + summary.interrupted
            + count (λ r. is_held r.task.status) rows'
          ≡ count (λ r. is_held r.task.status) rows)
      × (length summary.task_ids ≡ summary.requeued + summary.cancelled + summary.interrupted)
unfolding recover_stale
recover_stale_frees now locked rows =
    let reads = map id_of (keep (is_stale_read locked) rows) in
    let cancels = map id_of (keep (is_stale_cancel locked) rows) in
    let mutations = map id_of (keep (is_stale_mutation locked) rows) in
    (
      held_locked now locked rows,
      omega (
        arith,
        held_locked now locked rows,
        partition locked rows,
        length-keep (is_stale_read locked) rows,
        length-keep (is_stale_cancel locked) rows,
        length-keep (is_stale_mutation locked) rows,
      ),
      omega (arith, length-append reads cancels, length-append (reads ++ cancels) mutations),
    )
