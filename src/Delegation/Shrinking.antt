-- ===== src/Delegation/Shrinking.antt =====
-- What features/agent/delegation/scheduler.py does about running operations starts none.
use mathlib.Core.Path.{subst}
use cywl_oopz.Prelude.{
  ℕ, ◌+◌, ◌≤◌, ◌≡◌, refl, sym, ◌∙◌, inl, inr, Bool, false, not, ◌&&◌, List, [], ◌∷◌, Option, none,
  some, arith, nat_beq, Bool-cases, Option-cases, nat_eq, is_some,
}
use cywl_oopz.Prelude.Dict.{get}
use cywl_oopz.Delegation.Models.{DelegatedAgentTask}
use cywl_oopz.Delegation.Scheduler.{CancelReason, ActiveTask, Scheduler, Pass, meet}
use cywl_oopz.Delegation.Operations.{
  is_cancel_wanted, is_user_cancel, write_cancelled, forget, mark_user, Leaving, handle_cancelled,
  leave_claimed, cancel_one, cancel_each,
}
use cywl_oopz.Delegation.Submissions
use cywl_oopz.Delegation.Counting.{count_active, count-pop, count-pop_all, count-put_same}
use cywl_oopz.Delegation.Limits.{IsBounded, reads, mutates, reads_for}

-- No more tasks are active than before.
pub record Shrinks (s t : Scheduler) : Type 0 where
  pub same_limits : t.limits ≡ s.limits
  pub fewer : (p : DelegatedAgentTask → Bool) → count_active p t.active ≤ count_active p s.active

pub Shrinks-trans : (s t u : Scheduler) → Shrinks s t → Shrinks t u → Shrinks s u
Shrinks-trans s t u h k = record {
  same_limits = k.same_limits ∙ h.same_limits;
  fewer = λ p. omega (arith, h.fewer p, k.fewer p);
}

pub Shrinks-refl : (s : Scheduler) → Shrinks s s
Shrinks-refl s = record { same_limits = refl; fewer = λ p. omega arith }

pub Shrinks-IsBounded :
    (s t : Scheduler) → Shrinks s t → IsBounded s.limits s.active → IsBounded t.limits t.active
Shrinks-IsBounded s t h b =
    subst (λ l. IsBounded l t.active) (sym h.same_limits)
      (record {
        read_bound = omega (arith, h.fewer reads, b.read_bound);
        owner_bound = λ owner. omega (arith, h.fewer (reads_for owner), b.owner_bound owner);
        mutation_bound = omega (arith, h.fewer mutates, b.mutation_bound);
      })

pub meet-Shrinks : (pass : Pass) (s : Scheduler) → Shrinks s (meet pass s)
meet-Shrinks pass s = record {
  same_limits = refl;
  fewer = λ p. count-pop_all p pass.ended s.active;
}

pub write_cancelled-Shrinks :
    (writes : Pass) (id : ℕ) (s : Scheduler) → Shrinks s (write_cancelled writes id s).1
write_cancelled-Shrinks writes id s = elim (Bool-cases writes.fails) [
  | inl e ↦ rw e (Shrinks-refl s)
  | inr e ↦ rw e (record { same_limits = refl; fewer = λ p. omega arith })
]

pub handle_cancelled-Shrinks :
    (r w : Pass) (task : DelegatedAgentTask) (s : Scheduler)
    → Shrinks s (handle_cancelled r w task s).1
unfolding handle_cancelled
handle_cancelled-Shrinks r w task s =
    let met = meet r s in
    elim (Bool-cases (
      not r.fails
      && is_user_cancel (get s.active task.id)
      && is_cancel_wanted (Submissions.get task.id met.rows))) [
        | inl e ↦ rw e (
            Shrinks-trans s met _ (meet-Shrinks r s) (
              Shrinks-trans met (meet w met) _ (meet-Shrinks w met)
                (write_cancelled-Shrinks w task.id (meet w met))))
        | inr e ↦ rw e (meet-Shrinks r s)
      ]

pub forget-Shrinks :
    (id : ℕ) (s : Scheduler) (x : Bool × Scheduler) → Shrinks s x.1 → Shrinks s (forget id x).1
forget-Shrinks id s (woken, t) h = record {
  same_limits = h.same_limits;
  fewer = λ p. omega (arith, h.fewer p, count-pop p t.active id);
}

pub leave_claimed-Shrinks :
    (leaving : Leaving) (r w : Pass) (task : DelegatedAgentTask) (s : Scheduler)
    → Shrinks s (leave_claimed leaving r w task s).1
unfolding leave_claimed
leave_claimed-Shrinks Leaving.is_cancelled r w task s =
    forget-Shrinks task.id s (handle_cancelled r w task s) (handle_cancelled-Shrinks r w task s)
leave_claimed-Shrinks Leaving.returns r w task s =
    forget-Shrinks task.id s (false, s) (Shrinks-refl s)
leave_claimed-Shrinks Leaving.errs r w task s = forget-Shrinks task.id s (false, s) (Shrinks-refl s)

pub mark_user-Shrinks :
    (held : ActiveTask) (s : Scheduler) (id : ℕ)
    → Shrinks s (record s { active = mark_user held (get s.active id) s.active id })
mark_user-Shrinks held s id = elim (Option-cases (get s.active id)) [
  | inl e ↦ rw e (Shrinks-refl s)
  | inr (a, e) ↦ elim (Bool-cases (nat_beq a.operation held.operation)) [
    | inl q ↦
        rw (e, q)
          (record {
            same_limits = refl;
            fewer = λ p. omega (
              arith,
              count-put_same p s.active id a (record a { cancel_reason = CancelReason.user }) e
                  refl,
            );
          })
    | inr q ↦ rw (e, q) (Shrinks-refl s)
  ]
]

pub cancel_one-Shrinks :
    (pass : Pass) (id : ℕ) (found : Option ActiveTask) (s : Scheduler)
    → Shrinks s (cancel_one pass id found s).1
unfolding cancel_one
cancel_one-Shrinks pass id none s = Shrinks-refl s
cancel_one-Shrinks pass id (some a) s =
    let t = meet pass s in
    elim (Bool-cases (is_cancel_wanted (Submissions.get id t.rows))) [
      | inl e ↦ rw e (Shrinks-trans s t _ (meet-Shrinks pass s) (mark_user-Shrinks a t id))
      | inr e ↦ rw e (meet-Shrinks pass s)
    ]

pub cancel_each-Shrinks :
    (passes : ℕ → Pass) (k : ℕ) (ids : List ℕ) (s : Scheduler)
    → Shrinks s (cancel_each passes k ids s).1
unfolding cancel_each
cancel_each-Shrinks passes k [] s = Shrinks-refl s
cancel_each-Shrinks passes k (id ∷ ids) s =
    let one = cancel_one (passes k) id (get s.active id) s in
    elim (Bool-cases (is_some (get s.active id) && (passes k).fails)) [
      | inl e ↦ rw e (meet-Shrinks (passes k) s)
      | inr e ↦ rw e (
          Shrinks-trans s one.1 _ (cancel_one-Shrinks (passes k) id (get s.active id) s)
            (cancel_each-Shrinks passes (k + 1) ids one.1))
    ]
