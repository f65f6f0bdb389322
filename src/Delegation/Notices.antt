-- ===== src/Delegation/Notices.antt =====
-- The notifications of features/agent/delegation/repository.py, and what it does about tasks whose
-- worker is gone.
use cywl_oopz.Prelude.{
  ℕ, ◌+◌, Bool, not, ◌&&◌, List, [], ◌++◌, none, some, map, if◌then◌else◌, leb, nat_beq, length,
  any, keep, take, count, option_or, Result, ok, ◌>>◌, raise_if, nat_eq, list_eq,
}
use cywl_oopz.Delegation.Models.{
  queued, cancelled, interrupted, is_terminal, is_cancel_requested, is_held, is_read, pending,
  claimed, presented, deferred, is_claimed, is_open, DelegatedAgentTask, TaskRow, TaskError,
  value_error, RecoverySummary,
}
use cywl_oopz.Delegation.Rows.{Rows, order_by, update, with_task}
use cywl_oopz.Prelude.Text.{codes}

-- A terminal task whose notification nobody has.
abbrev pub is_due_notice : TaskRow → Bool
is_due_notice r = is_terminal r.task.status && is_open r.task.notification_state

abbrev pub is_among : List ℕ → TaskRow → Bool
is_among ids r = any (nat_beq r.task.id) ids

abbrev pub claim_notice : TaskRow → TaskRow
claim_notice = with_task (λ t. record t { notification_state = claimed })

abbrev pub id_of : TaskRow → ℕ
id_of r = r.task.id

-- ORDER BY finished_at; PostgreSQL sorts a null last, and a terminal task has a time.
abbrev pub finished_of : TaskRow → ℕ
finished_of r = option_or r.task.finished_at 0

-- The rows that a claim of notifications chooses among those of a predicate.
unfoldable pub chosen_notices : (ℕ → Bool) → ℕ → (TaskRow → Bool) → Rows → Rows
unfolding order_by
chosen_notices locked limit wanted rows =
    take limit (
      order_by finished_of (keep (λ r. wanted r && is_due_notice r && not (locked r.task.id)) rows))

unfoldable pub claim_notices :
    (ℕ → Bool) → ℕ → (TaskRow → Bool) → Rows → List DelegatedAgentTask × Rows
unfolding chosen_notices update
claim_notices locked limit wanted rows =
    let chosen = chosen_notices locked limit wanted rows in
    (
      map (λ r. (claim_notice r).task) chosen,
      update (is_among (map id_of chosen)) claim_notice rows,
    )

-- claim_notifications
unfoldable pub claim_notifications :
    (ℕ → Bool) → ℕ → ℕ → Rows → Result TaskError (List DelegatedAgentTask × Rows)
unfolding claim_notices
claim_notifications locked session limit rows = do
  raise_if (not (leb 1 limit && leb limit 20)) value_error
  ok (claim_notices locked limit (λ r. nat_beq r.task.request.origin_voice_session_id session) rows)

-- claim_text_notifications; `is_over` tells the voice sessions that ended or failed.
unfoldable pub claim_text_notifications :
    (ℕ → Bool) → (ℕ → Bool) → ℕ → Rows → Result TaskError (List DelegatedAgentTask × Rows)
unfolding claim_notices
claim_text_notifications is_over locked limit rows = do
  raise_if (not (leb 1 limit && leb limit 50)) value_error
  ok (claim_notices locked limit (λ r. is_over r.task.request.origin_voice_session_id) rows)

abbrev pub is_claimed_among : List ℕ → TaskRow → Bool
is_claimed_among ids r = is_among ids r && is_claimed r.task.notification_state

abbrev pub present_row : ℕ → TaskRow → TaskRow
present_row now r = record r {
  presented_at = some now;
  task = record r.task { notification_state = presented };
}

abbrev pub defer_row : TaskRow → TaskRow
defer_row = with_task (λ t. record t { notification_state = deferred })

abbrev pub has_claimed : TaskRow → Bool
has_claimed r = is_claimed r.task.notification_state

-- mark_presented; of no identities it changes nothing, as the source returns at once.
unfoldable pub mark_presented : ℕ → List ℕ → Rows → Rows
unfolding update
mark_presented now ids = update (is_claimed_among ids) (present_row now)

-- defer_notifications
unfoldable pub defer_notifications : List ℕ → Rows → Rows
unfolding update
defer_notifications ids = update (is_claimed_among ids) defer_row

-- recover_claimed_notifications: the number of rows, and the rows.
unfoldable pub recover_claimed_notifications : Rows → ℕ × Rows
unfolding update
recover_claimed_notifications rows = (count has_claimed rows, update has_claimed defer_row rows)

-- What recover_stale writes to a row that some worker held.
abbrev pub recover_row : ℕ → TaskRow → TaskRow
recover_row now r =
    let freed = record r { worker_id = []; heartbeat_at = none } in
    if is_cancel_requested r.task.status
    then with_task
        (λ t. record t { status = cancelled; finished_at = some now; notification_state = pending })
        freed
    else if is_read r.task.request.lane
    then with_task
        (λ t. record t {
          status = queued;
          retry_count = t.retry_count + 1;
          next_attempt_at = some now;
        })
        freed
    else with_task
        (λ t. record t {
          status = interrupted;
          finished_at = some now;
          error_code = codes "stale_mutation";
          notification_state = pending;
        })
        freed

abbrev pub is_stale : (ℕ → Bool) → TaskRow → Bool
is_stale locked r = is_held r.task.status && not (locked r.task.id)

-- The rows that recover_stale counts as cancelled, requeued and interrupted.
abbrev pub is_stale_cancel : (ℕ → Bool) → TaskRow → Bool
is_stale_cancel locked r = is_stale locked r && is_cancel_requested r.task.status

abbrev pub is_stale_read : (ℕ → Bool) → TaskRow → Bool
is_stale_read locked r =
    is_stale locked r && not (is_cancel_requested r.task.status) && is_read r.task.request.lane

abbrev pub is_stale_mutation : (ℕ → Bool) → TaskRow → Bool
is_stale_mutation locked r =
    is_stale locked r
    && not (is_cancel_requested r.task.status)
    && not (is_read r.task.request.lane)

-- recover_stale
unfoldable pub recover_stale : ℕ → (ℕ → Bool) → Rows → RecoverySummary × Rows
unfolding update
recover_stale now locked rows =
    let requeued = map id_of (keep (is_stale_read locked) rows) in
    let cancelled = map id_of (keep (is_stale_cancel locked) rows) in
    let interrupted = map id_of (keep (is_stale_mutation locked) rows) in
    (
      record {
        requeued = length requeued;
        cancelled = length cancelled;
        interrupted = length interrupted;
        task_ids = requeued ++ cancelled ++ interrupted;
      },
      update (is_stale locked) (recover_row now) rows,
    )
