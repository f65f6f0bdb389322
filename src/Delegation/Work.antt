-- ===== src/Delegation/Work.antt =====
-- _fill_capacity of features/agent/delegation/scheduler.py leaves no room and no task unused.
use cywl_oopz.Prelude.{
  ℕ, zero, suc, ◌+◌, ◌-◌, ◌≡◌, refl, ap, inl, inr, ◌⊎◌, Bool, true, false, ◌&&◌, List, [], ◌∷◌,
  ◌++◌, none, some, arith, any, any_mono, count, length, length-append, count-append, ltb,
  Bool-cases, Result-cases, ◌==◌, nat_eq, list_eq,
}
use cywl_oopz.Prelude.Text.{Text}
use cywl_oopz.Prelude.Dict.{Dict, put}
use cywl_oopz.Delegation.Models.{DelegatedAgentTask, read_parallel, mutation_serial, TaskRow}
use cywl_oopz.Delegation.Rows.{Rows}
use cywl_oopz.Delegation.Claims.{is_free}
use cywl_oopz.Delegation.Scheduler.{
  ActiveTask, Active, Scheduler, Limits, Pass, meet, claim, start_claimed, Stop, Filling,
  fill_reads, fill_mutation, filled_reads, fill_capacity, reads_of, add_owner, count_owners,
  owners_at, is_mutation, has_mutation, is_raised,
}
use cywl_oopz.Delegation.Counting.{
  owned_by, counted, Distinct, Distinct-count_owners, Distinct-add_owner, owners_at-reached,
  add_owner_lem, count_owners_lem, length-reads_of,
}
use cywl_oopz.Delegation.Limits.{IsBounded, claim-IsAnswer}

-- A task that reads could be claimed, and its owner is below the limit.
abbrev pub is_wanted : ℕ → (ℕ → Bool) → Limits → List DelegatedAgentTask → TaskRow → Bool
is_wanted now locked limits tasks r =
    is_free now locked (read_parallel ∷ []) [] r
    && ltb (count (owned_by r.task.request.owner_person_id) tasks) limits.per_user_concurrency

-- No such task is left at some pass of the loop, which is its last.
abbrev pub IsIdle : (ℕ → Pass) → Limits → List DelegatedAgentTask → Rows → Type 0
IsIdle passes limits tasks rows =
    (k : ℕ) × (any (is_wanted (passes k).now (passes k).locked limits tasks) rows ≡ false)

wanted-free :
    (now : ℕ) (locked : ℕ → Bool) (limits : Limits) (tasks : List DelegatedAgentTask)
    (counts : Dict Text ℕ)
    → Distinct counts
    → ((owner : Text) → counted counts owner ≡ count (owned_by owner) tasks)
    → (r : TaskRow) → is_wanted now locked limits tasks r ≡ true
    → is_free now locked (read_parallel ∷ []) (owners_at limits.per_user_concurrency counts) r
      ≡ true
wanted-free now locked limits tasks counts d same r h =
    let owner = r.task.request.owner_person_id in
    let excluded = owners_at limits.per_user_concurrency counts in
    elim (Bool-cases (any (λ o. owner == o) excluded)) [
      | inl e ↦
          let reached = owners_at-reached limits.per_user_concurrency counts owner d e in
          let here = same owner in absurd (ground arith)
      | inr e ↦ ground arith
    ]

none_wanted :
    (now : ℕ) (locked : ℕ → Bool) (limits : Limits) (tasks : List DelegatedAgentTask)
    (counts : Dict Text ℕ) (rows : Rows)
    → Distinct counts
    → ((owner : Text) → counted counts owner ≡ count (owned_by owner) tasks)
    → any
        (is_free now locked (read_parallel ∷ []) (owners_at limits.per_user_concurrency counts))
        rows
      ≡ false
    → any (is_wanted now locked limits tasks) rows ≡ false
none_wanted now locked limits tasks counts rows d same h =
    let wanted = is_wanted now locked limits tasks in
    let free =
      is_free now locked (read_parallel ∷ []) (owners_at limits.per_user_concurrency counts) in
    elim (Bool-cases (any wanted rows)) [
      | inr e ↦ e
      | inl e ↦
          let also =
            any_mono wanted free rows (wanted-free now locked limits tasks counts d same) e in
          absurd (ground arith)
    ]

-- How the loop may end.
Works : (ℕ → Pass) → Limits → Filling → Type 0
Works passes limits f =
    (length f.read_active ≡ limits.read_concurrency)
    ⊎ (IsIdle passes limits f.read_active f.scheduler.rows ⊎ (f.stop ≡ Stop.raised))

fill_reads-Works :
    (room : ℕ) (passes : ℕ → Pass) (n : ℕ) (ra : List DelegatedAgentTask) (oc : Dict Text ℕ)
    (s : Scheduler)
    → room + length ra ≡ s.limits.read_concurrency
    → Distinct oc
    → ((owner : Text) → counted oc owner ≡ count (owned_by owner) ra)
    → Works passes s.limits (fill_reads room passes n ra oc s)
unfolding fill_reads start_claimed Works
fill_reads-Works zero passes n ra oc s h d same = inl (omega arith)
fill_reads-Works (suc room) passes n ra oc s h d same =
    let met = meet (passes n) s in
    let pass = passes n in
    let excluded = owners_at s.limits.per_user_concurrency oc in
    elim (Result-cases (claim (passes n) met (read_parallel ∷ []) excluded)) [
      | inl ((none, rows), e) ↦
          let (idle, kept) = claim-IsAnswer pass met (read_parallel ∷ []) excluded none rows e in
          rw e (
            inr (
              inl (
                n,
                rw kept (none_wanted pass.now pass.locked s.limits ra oc met.rows d same idle),
              )))
      | inl ((some t, rows), e) ↦
          let o = t.request.owner_person_id in
          rw e (
            fill_reads-Works room passes (n + 1) (ra ++ t ∷ []) (add_owner oc o)
              (start_claimed t (record met { rows = rows }))
              (omega (arith, length-append ra (t ∷ []))) (Distinct-add_owner oc o d)
              (λ owner. ground (
                arith,
                add_owner_lem oc o owner,
                count-append (owned_by owner) ra (t ∷ []),
                same owner,
              )))
      | inr (x, e) ↦ rw e (inr (inr refl))
    ]

has_mutation-put :
    (active : Active) (id : ℕ) (a : ActiveTask)
    → is_mutation a ≡ true
    → has_mutation (put active id a) ≡ true
unfolding put
has_mutation-put [] id a h = ground arith
has_mutation-put ((j, b) ∷ active) id a h = ground (arith, has_mutation-put active id a h)

fill_mutation_works :
    (pass : Pass) (s : Scheduler)
    → (fill_mutation pass s).0 ≡ true
    → (has_mutation (fill_mutation pass s).1.active ≡ true)
      ⊎ (any (is_free pass.now pass.locked (mutation_serial ∷ []) []) (fill_mutation pass s).1.rows
          ≡ false)
unfolding fill_mutation start_claimed
fill_mutation_works pass s h = elim (Bool-cases (has_mutation s.active)) [
  | inl e ↦ rw e (inl e)
  | inr e ↦
      let met = meet pass s in
      elim (Result-cases (claim pass met (mutation_serial ∷ []) [])) [
        | inl ((none, rows), q) ↦
            let (idle, kept) = claim-IsAnswer pass met (mutation_serial ∷ []) [] none rows q in
            rw (e, q) (inr (rw kept idle))
        | inl ((some t, rows), q) ↦
            let (r, held, free, oldest, same, written) =
              claim-IsAnswer pass met (mutation_serial ∷ []) [] (some t) rows q in
            let request = ap (λ (t : DelegatedAgentTask). t.request) same in
            rw (e, q) (inl (has_mutation-put met.active t.id _ (rw request (ground arith))))
        | inr (x, q) ↦ let k : false ≡ true = (rw (e, q) at h) in absurd (ground arith)
      ]
]

-- Filling the capacity without an error wastes nothing. When its loop ends, either it knows of
-- read_concurrency tasks that read, or no task that reads could be claimed whose owner is below the
-- limit; and at the end a task that changes something runs, or none could be claimed.
pub fill_capacity_works :
    (passes : ℕ → Pass) (s : Scheduler)
    → IsBounded s.limits s.active
    → (fill_capacity passes s).0 ≡ true
    → let f = filled_reads passes s in
      let s' = (fill_capacity passes s).1 in
      let last = passes f.claims in
      ((length f.read_active ≡ s.limits.read_concurrency)
        ⊎ IsIdle passes s.limits f.read_active f.scheduler.rows)
      × ((has_mutation s'.active ≡ true)
          ⊎ (any (is_free last.now last.locked (mutation_serial ∷ []) []) s'.rows ≡ false))
unfolding fill_capacity filled_reads Works
fill_capacity_works passes s b h =
    let f = filled_reads passes s in
    let ra = reads_of s.active in
    let works =
      fill_reads-Works (s.limits.read_concurrency - length ra) passes 0 ra (count_owners ra) s
        (omega (arith, length-reads_of s.active, b.read_bound)) (Distinct-count_owners ra)
        (count_owners_lem ra) in
    elim (Bool-cases (is_raised f.stop)) [
      | inl e ↦ let k : false ≡ true = (rw e at h) in absurd (ground arith)
      | inr e ↦
          let k : (fill_mutation (passes f.claims) f.scheduler).0 ≡ true = (rw e at h) in
          let mutation = fill_mutation_works (passes f.claims) f.scheduler k in
          elim works [
            | inl full ↦ rw e (inl full, mutation)
            | inr (inl idle) ↦ rw e (inr idle, mutation)
            | inr (inr q) ↦ absurd (ground arith)
          ]
    ]
