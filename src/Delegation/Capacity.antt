-- ===== src/Delegation/Capacity.antt =====
-- The limits that _fill_capacity of features/agent/delegation/scheduler.py keeps.
use mathlib.Core.Path.{subst}
use cywl_oopz.Prelude.{
  ℕ, ◌≤◌, ◌≡◌, refl, sym, ap, ◌∙◌, inl, inr, false, [], ◌∷◌, none, some, arith, Bool-cases,
  Result-cases, ok, nat_eq, list_eq,
}
use cywl_oopz.Delegation.Models.{DelegatedAgentTask, mutation_serial, is_read}
use cywl_oopz.Delegation.Rows.{Rows}
use cywl_oopz.Delegation.Scheduler.{
  Active, Scheduler, Pass, meet, claim, start_claimed, fill_mutation, filled_reads, fill_capacity,
  has_mutation, is_raised,
}
use cywl_oopz.Delegation.Counting.{count_active, count-pop_all}
use cywl_oopz.Delegation.Limits.{
  reads, mutates, reads_for, IsBounded, meet-IsBounded, claim-IsAnswer,
}
use cywl_oopz.Delegation.Loop.{count-start_claimed, filled_reads-Filled, Filled-IsBounded}

count_mutates : (active : Active) → has_mutation active ≡ false → count_active mutates active ≡ 0
count_mutates [] h = refl
count_mutates ((id, a) ∷ active) h = ground (arith, count_mutates active)

claimed_mutation :
    (pass : Pass) (s : Scheduler) (t : DelegatedAgentTask) (rows : Rows)
    → claim pass s (mutation_serial ∷ []) [] ≡ ok (some t, rows)
    → is_read t.request.lane ≡ false
claimed_mutation pass s t rows h =
    let (r, held, free, oldest, same, written) =
      claim-IsAnswer pass s (mutation_serial ∷ []) [] (some t) rows h in
    let request = ap (λ (t : DelegatedAgentTask). t.request) same in rw request (ground arith)

start_mutation-IsBounded :
    (s : Scheduler) (t : DelegatedAgentTask)
    → IsBounded s.limits s.active
    → is_read t.request.lane ≡ false
    → count_active mutates s.active ≡ 0
    → IsBounded s.limits (start_claimed t s).active
start_mutation-IsBounded s t b lane none_now = record {
  read_bound = ground (arith, count-start_claimed reads s t, b.read_bound);
  owner_bound =
      λ owner. ground (arith, count-start_claimed (reads_for owner) s t, b.owner_bound owner);
  mutation_bound = ground (arith, count-start_claimed mutates s t);
}

fill_mutation-IsBounded :
    (pass : Pass) (s : Scheduler)
    → IsBounded s.limits s.active
    → ((fill_mutation pass s).1.limits ≡ s.limits)
      × IsBounded s.limits (fill_mutation pass s).1.active
unfolding fill_mutation start_claimed
fill_mutation-IsBounded pass s b = elim (Bool-cases (has_mutation s.active)) [
  | inl e ↦ rw e (refl, b)
  | inr e ↦
      let met = meet pass s in
      let known = meet-IsBounded pass s b in
      elim (Result-cases (claim pass met (mutation_serial ∷ []) [])) [
        | inl ((none, rows), q) ↦ rw (e, q) (refl, known)
        | inl ((some t, rows), q) ↦
            rw (e, q)
              (
                refl,
                start_mutation-IsBounded (record met { rows = rows }) t known
                    (claimed_mutation pass met t rows q)
                    (omega
                      (arith, count_mutates s.active e, count-pop_all mutates pass.ended s.active)),
              )
        | inr (x, q) ↦ rw (e, q) (refl, known)
      ]
]

-- Filling the capacity keeps every limit, whatever ends and whatever others do while it waits for a
-- claim, and also where it ends with an error: at most read_concurrency tasks that read, at most
-- per_user_concurrency of one owner, and at most one task that changes something.
pub fill_capacity-IsBounded :
    (passes : ℕ → Pass) (s : Scheduler)
    → 1 ≤ s.limits.per_user_concurrency
    → IsBounded s.limits s.active
    → ((fill_capacity passes s).1.limits ≡ s.limits)
      × IsBounded s.limits (fill_capacity passes s).1.active
unfolding fill_capacity
fill_capacity-IsBounded passes s u b =
    let f = filled_reads passes s in
    let filled = filled_reads-Filled passes s u b in
    let bounded = Filled-IsBounded s.limits passes f filled in
    let here = subst (λ l. IsBounded l f.scheduler.active) (sym filled.same_limits) bounded in
    let (same, after) = fill_mutation-IsBounded (passes f.claims) f.scheduler here in
    let later = (fill_mutation (passes f.claims) f.scheduler).1.active in
    elim (Bool-cases (is_raised f.stop)) [
      | inl e ↦ rw e (filled.same_limits, bounded)
      | inr e ↦
          rw e (same ∙ filled.same_limits, subst (λ l. IsBounded l later) filled.same_limits after)
    ]
