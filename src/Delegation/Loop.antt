-- ===== src/Delegation/Loop.antt =====
-- What the loop of _fill_capacity in features/agent/delegation/scheduler.py knows.
use cywl_oopz.Prelude.{
  ℕ, zero, suc, ◌+◌, ◌-◌, ◌≤◌, ◌<◌, ◌≡◌, refl, ap, inl, inr, Bool, true, false, List, [], ◌∷◌, ◌++◌,
  none, some, arith, if◌then◌else◌, any, count, length, length-append, count-append, Result-cases,
  ok, ◌==◌, ==_iff, nat_eq, list_eq,
}
use cywl_oopz.Prelude.Text.{Text}
use cywl_oopz.Prelude.Dict.{Dict}
use cywl_oopz.Delegation.Models.{DelegatedAgentTask, read_parallel, is_read}
use cywl_oopz.Delegation.Rows.{Rows}
use cywl_oopz.Delegation.Scheduler.{
  Scheduler, Limits, Pass, meet, claim, start_claimed, Filling, fill_reads, filled_reads, reads_of,
  add_owner, count_owners, owners_at,
}
use cywl_oopz.Delegation.Counting.{
  count_active, count-pop_all, count-put, count-reads_of, length-reads_of, owned_by, counted,
  add_owner_lem, count_owners_lem, owners_at-below,
}
use cywl_oopz.Delegation.Limits.{reads, mutates, reads_for, IsBounded, claim-IsAnswer}

-- What the loop knows: every read that is active is among those that it counts.
pub record Knows (s : Scheduler) (read_active : List DelegatedAgentTask)
    (owner_counts : Dict Text ℕ) : Type 0 where
  pub all_reads : count_active reads s.active ≤ length read_active
  pub owner_reads :
      (owner : Text) → count_active (reads_for owner) s.active ≤ count (owned_by owner) read_active
  pub owner_bound :
      (owner : Text) → count (owned_by owner) read_active ≤ s.limits.per_user_concurrency
  pub right_counts :
      (owner : Text) → counted owner_counts owner ≡ count (owned_by owner) read_active
  pub mutation_bound : count_active mutates s.active ≤ 1

pub claimed_read :
    (pass : Pass) (s : Scheduler) (excluded : List Text) (t : DelegatedAgentTask) (rows : Rows)
    → claim pass s (read_parallel ∷ []) excluded ≡ ok (some t, rows)
    → (is_read t.request.lane ≡ true)
      × (any (λ owner. t.request.owner_person_id == owner) excluded ≡ false)
claimed_read pass s excluded t rows h =
    let (r, held, free, oldest, same, written) =
      claim-IsAnswer pass s (read_parallel ∷ []) excluded (some t) rows h in
    let request = ap (λ (t : DelegatedAgentTask). t.request) same in
    (rw request (ground arith), rw request (ground arith))

pub meet-Knows :
    (pass : Pass) (s : Scheduler) (ra : List DelegatedAgentTask) (oc : Dict Text ℕ)
    → Knows s ra oc
    → Knows (meet pass s) ra oc
meet-Knows pass s ra oc k = record {
  all_reads = omega (arith, count-pop_all reads pass.ended s.active, k.all_reads);
  owner_reads = λ owner.
      omega (arith, count-pop_all (reads_for owner) pass.ended s.active, k.owner_reads owner);
  owner_bound = k.owner_bound;
  right_counts = k.right_counts;
  mutation_bound = omega (arith, count-pop_all mutates pass.ended s.active, k.mutation_bound);
}

pub count-start_claimed :
    (p : DelegatedAgentTask → Bool) (s : Scheduler) (t : DelegatedAgentTask)
    → count_active p (start_claimed t s).active ≤ count_active p s.active + (if p t then 1 else 0)
unfolding start_claimed
count-start_claimed p s t = count-put p s.active t.id _

pub start_claimed-Knows :
    (s : Scheduler) (ra : List DelegatedAgentTask) (oc : Dict Text ℕ) (t : DelegatedAgentTask)
    → Knows s ra oc
    → is_read t.request.lane ≡ true
    → counted oc t.request.owner_person_id < s.limits.per_user_concurrency
    → Knows (start_claimed t s) (ra ++ t ∷ []) (add_owner oc t.request.owner_person_id)
unfolding start_claimed
start_claimed-Knows s ra oc t k lane below =
    let o = t.request.owner_person_id in
    record {
      all_reads =
          ground (arith, count-start_claimed reads s t, length-append ra (t ∷ []), k.all_reads);
      owner_reads = λ owner. ground (
        arith,
        count-start_claimed (reads_for owner) s t,
        count-append (owned_by owner) ra (t ∷ []),
        k.owner_reads owner,
      );
      owner_bound = λ owner. ground (
        arith,
        count-append (owned_by owner) ra (t ∷ []),
        k.owner_bound owner,
        k.right_counts o,
        ==_iff o owner,
        ap (λ u. count (owned_by u) ra),
      );
      right_counts = λ owner. ground (
        arith,
        add_owner_lem oc o owner,
        count-append (owned_by owner) ra (t ∷ []),
        k.right_counts owner,
      );
      mutation_bound = ground (arith, count-start_claimed mutates s t, k.mutation_bound);
    }

-- What a claim leaves of the rows does not matter to what the loop knows.
pub with_rows-Knows :
    (s : Scheduler) (rows : Rows) (ra : List DelegatedAgentTask) (oc : Dict Text ℕ)
    → Knows s ra oc
    → Knows (record s { rows = rows }) ra oc
with_rows-Knows s rows ra oc k = record {
  all_reads = k.all_reads;
  owner_reads = k.owner_reads;
  owner_bound = k.owner_bound;
  right_counts = k.right_counts;
  mutation_bound = k.mutation_bound;
}

-- What holds where the loop has ended.
pub record Filled (limits : Limits) (passes : ℕ → Pass) (f : Filling) : Type 0 where
  pub same_limits : f.scheduler.limits ≡ limits
  pub knows : Knows f.scheduler f.read_active f.owner_counts
  pub room : length f.read_active ≤ limits.read_concurrency

pub fill_reads-Filled :
    (room : ℕ) (passes : ℕ → Pass) (n : ℕ) (ra : List DelegatedAgentTask) (oc : Dict Text ℕ)
    (s : Scheduler)
    → 1 ≤ s.limits.per_user_concurrency
    → room + length ra ≤ s.limits.read_concurrency
    → Knows s ra oc
    → Filled s.limits passes (fill_reads room passes n ra oc s)
unfolding fill_reads
fill_reads-Filled zero passes n ra oc s u h k = record {
  same_limits = refl;
  knows = k;
  room = omega arith;
}
fill_reads-Filled (suc room) passes n ra oc s u h k =
    let met = meet (passes n) s in
    let excluded = owners_at s.limits.per_user_concurrency oc in
    let known = meet-Knows (passes n) s ra oc k in
    elim (Result-cases (claim (passes n) met (read_parallel ∷ []) excluded)) [
      | inl ((none, rows), e) ↦ rw e (record {
        same_limits = refl;
        knows = with_rows-Knows met rows ra oc known;
        room = omega arith;
      })
      | inl ((some t, rows), e) ↦
          let (lane, free) = claimed_read (passes n) met excluded t rows e in
          let below =
            owners_at-below s.limits.per_user_concurrency oc t.request.owner_person_id u free in
          let next = record met { rows = rows } in
          rw e (
            fill_reads-Filled room passes (n + 1) (ra ++ t ∷ [])
              (add_owner oc t.request.owner_person_id) (start_claimed t next) u
              (omega (arith, length-append ra (t ∷ [])))
              (start_claimed-Knows next ra oc t (with_rows-Knows met rows ra oc known) lane below))
      | inr (x, e) ↦ rw e (record { same_limits = refl; knows = known; room = omega arith })
    ]

pub reads_of-Knows :
    (s : Scheduler)
    → IsBounded s.limits s.active
    → Knows s (reads_of s.active) (count_owners (reads_of s.active))
reads_of-Knows s b = record {
  all_reads = omega (arith, length-reads_of s.active);
  owner_reads = λ owner. omega (arith, count-reads_of (owned_by owner) s.active);
  owner_bound =
      λ owner. omega (arith, count-reads_of (owned_by owner) s.active, b.owner_bound owner);
  right_counts = count_owners_lem (reads_of s.active);
  mutation_bound = b.mutation_bound;
}

pub filled_reads-Filled :
    (passes : ℕ → Pass) (s : Scheduler)
    → 1 ≤ s.limits.per_user_concurrency
    → IsBounded s.limits s.active
    → Filled s.limits passes (filled_reads passes s)
unfolding filled_reads
filled_reads-Filled passes s u b =
    fill_reads-Filled (s.limits.read_concurrency - length (reads_of s.active)) passes 0
      (reads_of s.active) (count_owners (reads_of s.active)) s u
      (omega (arith, length-reads_of s.active, b.read_bound)) (reads_of-Knows s b)

pub Filled-IsBounded :
    (limits : Limits) (passes : ℕ → Pass) (f : Filling)
    → Filled limits passes f
    → IsBounded limits f.scheduler.active
Filled-IsBounded limits passes f h =
    let per_user = ap (λ (l : Limits). l.per_user_concurrency) h.same_limits in
    record {
      read_bound = omega (arith, h.knows.all_reads, h.room);
      owner_bound =
          λ owner. omega (arith, h.knows.owner_reads owner, h.knows.owner_bound owner, per_user);
      mutation_bound = h.knows.mutation_bound;
    }
