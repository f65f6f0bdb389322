-- ===== src/Delegation/Operations.antt =====
-- What the scheduler of features/agent/delegation/scheduler.py does about running operations: how
-- one ends, how a person's cancellation reaches it, and how start and aclose recover tasks.
use cywl_oopz.Prelude.{
  ℕ, ◌+◌, Bool, true, false, not, ◌&&◌, List, [], ◌∷◌, ◌++◌, Option, none, some, map, if◌then◌else◌,
  nat_beq, any, keep, is_some, nat_eq,
}
use cywl_oopz.Prelude.Dict.{get, put, pop}
use cywl_oopz.Delegation.Models.{is_cancel_requested, DelegatedAgentTask}
use cywl_oopz.Delegation.Rows.{mark_cancelled}
use cywl_oopz.Delegation.Notices.{recover_stale}
use cywl_oopz.Delegation.Submissions
use cywl_oopz.Delegation.Scheduler.{
  CancelReason, is_user, ActiveTask, Active, Scheduler, Pass, meet,
}

abbrev pub is_cancel_wanted : Option DelegatedAgentTask → Bool
is_cancel_wanted none = false
is_cancel_wanted (some t) = is_cancel_requested t.status

abbrev pub is_user_cancel : Option ActiveTask → Bool
is_user_cancel none = false
is_user_cancel (some a) = is_user a.cancel_reason

-- How the runner leaves _run_claimed: it returns or raises an error that is logged, or it is
-- cancelled.
pub data Leaving : Type 0 where
  returns errs is_cancelled : Leaving

abbrev pub write_cancelled : Pass → ℕ → Scheduler → Bool × Scheduler
write_cancelled writes id s =
    let result = mark_cancelled writes.now id s.limits.worker_id s.rows in
    if writes.fails then (false, s) else (result.0, record s { rows = result.1 })

-- The CancelledError branch of _run_claimed, with the passes of its two calls; whether it wakes the
-- notifier. The reason is read before the await of get, where the source reads it after: a pass
-- writes no reason.
unfoldable pub handle_cancelled : Pass → Pass → DelegatedAgentTask → Scheduler → Bool × Scheduler
unfolding Submissions.get mark_cancelled get
handle_cancelled reads writes task s =
    let active = get s.active task.id in
    let met = meet reads s in
    if not reads.fails
      && is_user_cancel active
      && is_cancel_wanted (Submissions.get task.id met.rows)
    then write_cancelled writes task.id (meet writes met)
    else (false, met)

-- The finally of _run_claimed.
abbrev pub forget : ℕ → Bool × Scheduler → Bool × Scheduler
forget id (woken, s) = (woken, record s { active = pop s.active id })

-- _run_claimed from where the runner is left to the end.
unfoldable pub leave_claimed :
    Leaving → Pass → Pass → DelegatedAgentTask → Scheduler → Bool × Scheduler
unfolding handle_cancelled pop
leave_claimed Leaving.is_cancelled reads writes task s =
    forget task.id (handle_cancelled reads writes task s)
leave_claimed _ reads writes task s = forget task.id (false, s)

abbrev pub has_key : Active → ℕ → Bool
has_key active id = any (λ e. nat_beq e.0 id) active

abbrev pub keys : Active → List ℕ
keys active = map (λ e. e.0) active

-- The object that the loop holds gets the reason, so the entry does only while it is the same.
abbrev pub mark_user : ActiveTask → Option ActiveTask → Active → ℕ → Active
mark_user held none active id = active
mark_user held (some a) active id =
    if nat_beq a.operation held.operation
    then put active id (record a { cancel_reason = CancelReason.user })
    else active

-- One round of the loop of _cancel_requested: the operations cancelled, and the scheduler. None of
-- the entries is done, since an operation removes its entry before it is.
unfoldable pub cancel_one : Pass → ℕ → Option ActiveTask → Scheduler → List ℕ × Scheduler
unfolding get put Submissions.get
cancel_one pass id none s = ([], s)
cancel_one pass id (some a) s =
    let t = meet pass s in
    if is_cancel_wanted (Submissions.get id t.rows)
    then (a.operation ∷ [], record t { active = mark_user a (get t.active id) t.active id })
    else ([], t)

-- The loop of _cancel_requested; where the database fails it raises after what it has done.
unfoldable pub cancel_each : (ℕ → Pass) → ℕ → List ℕ → Scheduler → List ℕ × Scheduler
unfolding cancel_one get
cancel_each passes k [] s = ([], s)
cancel_each passes k (id ∷ ids) s =
    let one = cancel_one (passes k) id (get s.active id) s in
    let rest = cancel_each passes (k + 1) ids one.1 in
    if is_some (get s.active id) && (passes k).fails
    then ([], meet (passes k) s)
    else (one.0 ++ rest.0, rest.1)

abbrev pub candidates : List ℕ → Active → List ℕ
candidates [] active = keys active
candidates (id ∷ ids) active = keep (has_key active) (id ∷ ids)

-- _cancel_requested, of the tasks that have changed or else of all.
unfoldable pub cancel_requested_tasks : (ℕ → Pass) → List ℕ → Scheduler → List ℕ × Scheduler
unfolding cancel_each
cancel_requested_tasks passes changed_ids s =
    cancel_each passes 0 (candidates changed_ids s.active) s

abbrev pub recover : Pass → Scheduler → Scheduler
recover pass s =
    if pass.fails then s else record s { rows = (recover_stale pass.now pass.locked s.rows).1 }

-- start, where no loop runs: it raises if the database fails.
unfoldable pub start : Pass → Scheduler → Bool × Scheduler
unfolding recover_stale
start pass s =
    let met = meet pass (record s { closing = false }) in
    if pass.fails then (false, met) else (true, record (recover pass met) { started = true })

abbrev pub shut : Active → Active
shut [] = []
shut ((id, a) ∷ active) = (id, record a { cancel_reason = CancelReason.shutdown }) ∷ shut active

-- aclose of a scheduler that was started.
abbrev pub closed : Pass → Pass → Pass → Scheduler → Scheduler
closed loop operations recovery s =
    let stopped = meet loop (record s { closing = true }) in
    let gathered = meet operations (record stopped { active = shut stopped.active }) in
    let cleared = record gathered { active = [] } in
    record (recover recovery (meet recovery cleared)) { started = false }

-- aclose: the passes are those of the loop and the operations that it cancels and waits for, and of
-- the recovery.
unfoldable pub aclose : Pass → Pass → Pass → Scheduler → Scheduler
unfolding recover_stale
aclose loop operations recovery s = if s.started then closed loop operations recovery s else s
