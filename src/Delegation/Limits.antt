-- ===== src/Delegation/Limits.antt =====
-- The limits of features/agent/delegation/scheduler.py, and what its claims answer.
use mathlib.Core.Path.{subst}
use cywl_oopz.Prelude.{
  ◌≤◌, ◌≡◌, inl, inr, Bool, not, ◌&&◌, ◌||◌, List, Option, arith, length, ltb, nat_beq, Bool-cases,
  ok, nat_eq, list_eq,
}
use cywl_oopz.Prelude.Text.{Text, strip}
use cywl_oopz.Commands.Parsing.{is_empty}
use cywl_oopz.Delegation.Models.{DelegatedAgentTask, DelegatedTaskLane, is_read}
use cywl_oopz.Delegation.Rows.{Rows, claim_next}
use cywl_oopz.Delegation.Claims.{IsAnswer, is_free, claim_next-IsAnswer}
use cywl_oopz.Delegation.Scheduler.{Active, Scheduler, Limits, Pass, meet, claim}
use cywl_oopz.Delegation.Counting.{count_active, count-pop_all, owned_by}

abbrev pub reads : DelegatedAgentTask → Bool
reads t = is_read t.request.lane

abbrev pub mutates : DelegatedAgentTask → Bool
mutates t = not (is_read t.request.lane)

abbrev pub reads_for : Text → DelegatedAgentTask → Bool
reads_for owner t = is_read t.request.lane && owned_by owner t

-- At most so many tasks that read run at once, at most so many of one owner, and at most one task
-- that changes something.
pub record IsBounded (limits : Limits) (active : Active) : Type 0 where
  pub read_bound : count_active reads active ≤ limits.read_concurrency
  pub owner_bound :
      (owner : Text) → count_active (reads_for owner) active ≤ limits.per_user_concurrency
  pub mutation_bound : count_active mutates active ≤ 1

pub meet-IsBounded :
    (pass : Pass) (s : Scheduler)
    → IsBounded s.limits s.active
    → IsBounded (meet pass s).limits (meet pass s).active
meet-IsBounded pass s b = record {
  read_bound = omega (arith, count-pop_all reads pass.ended s.active, b.read_bound);
  owner_bound = λ owner.
      omega (arith, count-pop_all (reads_for owner) pass.ended s.active, b.owner_bound owner);
  mutation_bound = omega (arith, count-pop_all mutates pass.ended s.active, b.mutation_bound);
}

-- A claim that does not raise answers as claim_next does.
pub claim-IsAnswer :
    (pass : Pass) (s : Scheduler) (lanes : List DelegatedTaskLane) (excluded : List Text)
    (answer : Option DelegatedAgentTask) (rows : Rows)
    → claim pass s lanes excluded ≡ ok (answer, rows)
    → IsAnswer
        (is_free pass.now pass.locked lanes excluded)
        pass.now
        (strip s.limits.worker_id)
        s.rows
        answer
        rows
unfolding claim claim_next
claim-IsAnswer pass s lanes excluded answer rows h =
    let worker = s.limits.worker_id in
    elim (Bool-cases pass.fails) [
      | inl e ↦ absurd (ground arith)
      | inr e ↦
          let k : claim_next pass.now pass.locked worker lanes excluded s.rows ≡ ok (answer, rows) =
            (rw e at h) in
          elim (Bool-cases (
            is_empty (strip worker)
            || ltb 128 (length (strip worker))
            || nat_beq (length lanes) 0)) [
              | inl g ↦ absurd (ground arith)
              | inr g ↦
                  let (a, r, q, answers) =
                    claim_next-IsAnswer pass.now pass.locked worker lanes excluded s.rows g in
                  let same : (a, r) ≡ (answer, rows) = cc in
                  subst
                    (λ (x : Option DelegatedAgentTask × Rows).
                      IsAnswer (is_free pass.now pass.locked lanes excluded) pass.now (strip worker)
                        s.rows x.0 x.1)
                    same answers
            ]
    ]
