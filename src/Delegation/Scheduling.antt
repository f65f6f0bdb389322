-- ===== src/Delegation/Scheduling.antt =====
-- The scheduler of features/agent/delegation/scheduler.py over any events.
use mathlib.Core.Path.{subst}
use cywl_oopz.Prelude.{
  ℕ, ◌≤◌, ◌≡◌, refl, sym, inl, inr, false, ◌||◌, List, [], ◌∷◌, Option, arith, nat_beq, Bool-cases,
  if_ind, ok, ltb, nat_eq,
}
use cywl_oopz.Prelude.Text.{Text}
use cywl_oopz.Prelude.Dict.{pop}
use cywl_oopz.Delegation.Models.{DelegatedAgentTask}
use cywl_oopz.Delegation.Rows.{Rows}
use cywl_oopz.Delegation.Scheduler.{
  Scheduler, Limits, Pass, meet, pop_all, fill_capacity, make_scheduler,
}
use cywl_oopz.Delegation.Operations.{
  candidates, recover, closed, Leaving, leave_claimed, cancel_requested_tasks, start, aclose,
}
use cywl_oopz.Delegation.Limits.{IsBounded, reads}
use cywl_oopz.Delegation.Capacity.{fill_capacity-IsBounded}
use cywl_oopz.Delegation.Shrinking.{
  Shrinks, Shrinks-IsBounded, leave_claimed-Shrinks, cancel_each-Shrinks, meet-Shrinks,
}

-- What the scheduler does: its loop fills the capacity and looks for cancellations, operations end,
-- and the program starts and closes it.
pub data Event : Type 0 where
  fills : (ℕ → Pass) → Event
  cancels : (ℕ → Pass) → List ℕ → Event
  leaves : Leaving → Pass → Pass → DelegatedAgentTask → Event
  starts : Pass → Event
  closes : Pass → Pass → Pass → Event

unfoldable pub handle : Event → Scheduler → Scheduler
handle (fills passes) s = (fill_capacity passes s).1
handle (cancels passes ids) s = (cancel_requested_tasks passes ids s).1
handle (leaves leaving r w task) s = (leave_claimed leaving r w task s).1
handle (starts pass) s = (start pass s).1
handle (closes loop operations recovery) s = aclose loop operations recovery s

unfoldable pub handle_all : List Event → Scheduler → Scheduler
unfolding handle
handle_all [] s = s
handle_all (event ∷ events) s = handle_all events (handle event s)

-- The limits are positive, and the active tasks keep them.
pub record IsRunnable (s : Scheduler) : Type 0 where
  pub positive : 1 ≤ s.limits.per_user_concurrency
  pub bounded : IsBounded s.limits s.active

IsBounded-nil : (limits : Limits) → IsBounded limits []
IsBounded-nil limits = record {
  read_bound = omega arith;
  owner_bound = λ owner. omega arith;
  mutation_bound = omega arith;
}

pub make_scheduler-IsRunnable :
    (reads per_user : ℕ) (worker : Option Text) (drawn : Text) (rows : Rows) (s : Scheduler)
    → make_scheduler reads per_user worker drawn rows ≡ ok s
    → IsRunnable s
unfolding make_scheduler
make_scheduler-IsRunnable n m worker drawn rows s h =
    elim (Bool-cases (nat_beq n 0 || nat_beq m 0)) [
      | inl e ↦ absurd (ground arith)
      | inr e ↦ elim (Bool-cases (ltb n m)) [
        | inl q ↦ absurd (ground arith)
        | inr q ↦
            let empty : s.active ≡ [] = ground arith in
            let owner : 1 ≤ s.limits.per_user_concurrency = ground arith in
            record { positive = owner; bounded = rw empty (IsBounded-nil s.limits) }
      ]
    ]

shrunk : (s t : Scheduler) → Shrinks s t → IsRunnable s → IsRunnable t
shrunk s t h r = record {
  positive = rw h.same_limits r.positive;
  bounded = Shrinks-IsBounded s t h r.bounded;
}

recover-Shrinks : (pass : Pass) (s : Scheduler) → Shrinks s (recover pass s)
recover-Shrinks pass s = elim (Bool-cases pass.fails) [
  | inl e ↦ rw e (record { same_limits = refl; fewer = λ p. omega arith })
  | inr e ↦ rw e (record { same_limits = refl; fewer = λ p. omega arith })
]

start-Shrinks : (pass : Pass) (s : Scheduler) → Shrinks s (start pass s).1
unfolding start
start-Shrinks pass s =
    let met = meet pass (record s { closing = false }) in
    let less = meet-Shrinks pass (record s { closing = false }) in
    elim (Bool-cases pass.fails) [
      | inl e ↦ rw e (record { same_limits = refl; fewer = less.fewer })
      | inr e ↦ rw e (record { same_limits = refl; fewer = less.fewer })
    ]

pub pop_all-nil : (ids : List ℕ) → pop_all ids [] ≡ []
unfolding pop
pop_all-nil [] = refl
pop_all-nil (id ∷ ids) = pop_all-nil ids

closed-IsRunnable :
    (loop operations recovery : Pass) (s : Scheduler)
    → IsRunnable s
    → IsRunnable (closed loop operations recovery s)
closed-IsRunnable loop operations recovery s h =
    let cleared =
      subst (IsBounded s.limits) (sym (pop_all-nil recovery.ended)) (IsBounded-nil s.limits) in
    elim (Bool-cases recovery.fails) [
      | inl e ↦ rw e (record { positive = h.positive; bounded = cleared })
      | inr e ↦ rw e (record { positive = h.positive; bounded = cleared })
    ]

handle-IsRunnable : (event : Event) (s : Scheduler) → IsRunnable s → IsRunnable (handle event s)
unfolding handle cancel_requested_tasks start aclose
handle-IsRunnable (fills passes) s h =
    let (same, b) = fill_capacity-IsBounded passes s h.positive h.bounded in
    record { positive = rw same h.positive; bounded = rw same b }
handle-IsRunnable (cancels passes ids) s h =
    shrunk s _ (cancel_each-Shrinks passes 0 (candidates ids s.active) s) h
handle-IsRunnable (leaves leaving r w task) s h =
    shrunk s _ (leave_claimed-Shrinks leaving r w task s) h
handle-IsRunnable (starts pass) s h = shrunk s _ (start-Shrinks pass s) h
handle-IsRunnable (closes loop operations recovery) s h =
    if_ind IsRunnable s.started (λ e. closed-IsRunnable loop operations recovery s h) (λ e. h)

handle_all-IsRunnable :
    (events : List Event) (s : Scheduler) → IsRunnable s → IsRunnable (handle_all events s)
unfolding handle_all
handle_all-IsRunnable [] s h = h
handle_all-IsRunnable (event ∷ events) s h =
    handle_all-IsRunnable events (handle event s) (handle-IsRunnable event s h)

-- From a scheduler that has just been made, over any events and whatever others do in between, the
-- limits hold: at most read_concurrency tasks that read are active, at most per_user_concurrency of
-- one owner, and at most one task that changes something.
pub handle_all-IsBounded :
    (reads per_user : ℕ) (worker : Option Text) (drawn : Text) (rows : Rows) (s : Scheduler)
    (events : List Event)
    → make_scheduler reads per_user worker drawn rows ≡ ok s
    → IsBounded (handle_all events s).limits (handle_all events s).active
handle_all-IsBounded reads per_user worker drawn rows s events h =
    (handle_all-IsRunnable events s
      (make_scheduler-IsRunnable reads per_user worker drawn rows s h)).bounded
