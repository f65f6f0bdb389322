-- ===== src/Delegation/Rows.antt =====
-- features/agent/delegation/repository.py over the rows of its table: each method is one
-- transaction, a function of the rows. `now` is the time that the method reads. `locked` are the
-- rows that other transactions hold, which SKIP LOCKED passes over. A database error changes
-- nothing.
use cywl_oopz.Prelude.{
  ℕ, ◌+◌, Bool, true, false, not, ◌&&◌, ◌||◌, List, [], ◌∷◌, ◌++◌, Option, none, some,
  if◌then◌else◌, ltb, leb, nat_beq, length, any, keep, take, is_some, Result, ok, ◌>>◌, raise_if,
  ◌==◌, nat_eq, list_eq,
}
use cywl_oopz.Prelude.Text.{Text, strip}
use cywl_oopz.Commands.Parsing.{split, is_empty}
use cywl_oopz.Delegation.Models.{
  running, waiting_retry, cancel_requested, succeeded, failed, cancelled, is_terminal, is_running,
  is_waiting, is_held, DelegatedTaskLane, is_read, pending, DelegatedAgentTask, TaskRow, TaskError,
  value_error, CancelOutcome,
}

abbrev pub Rows : Type 0
Rows = List TaskRow

-- " ".join(words)
abbrev pub join : List Text → Text
join [] = []
join (w ∷ []) = w
join (w ∷ v ∷ words) = w ++ 32 ∷ join (v ∷ words)

-- _bounded
unfoldable pub bounded : Text → ℕ → Text
bounded value limit = take limit (join (split value))

-- ORDER BY a time; rows of one time stay in their order.
unfoldable pub insert_by : (TaskRow → ℕ) → TaskRow → Rows → Rows
insert_by key r [] = r ∷ []
insert_by key r (s ∷ rows) = if leb (key r) (key s) then r ∷ s ∷ rows else s ∷ insert_by key r rows

unfoldable pub order_by : (TaskRow → ℕ) → Rows → Rows
unfolding insert_by
order_by key [] = []
order_by key (r ∷ rows) = insert_by key r (order_by key rows)

abbrev pub first {ℓ} : {A : Type ℓ} → List A → Option A
first [] = none
first (x ∷ xs) = some x

-- session.scalar(select(...).where(...)), and session.get
abbrev pub find : (TaskRow → Bool) → Rows → Option TaskRow
find p [] = none
find p (r ∷ rows) = if p r then some r else find p rows

abbrev pub has_id : ℕ → TaskRow → Bool
has_id id r = nat_beq r.task.id id

-- The rows with those of a predicate changed.
unfoldable pub update : (TaskRow → Bool) → (TaskRow → TaskRow) → Rows → Rows
update chosen values [] = []
update chosen values (r ∷ rows) = (if chosen r then values r else r) ∷ update chosen values rows

-- _conditional_update: whether a row was changed, and the rows.
unfoldable pub conditional_update : (TaskRow → Bool) → (TaskRow → TaskRow) → Rows → Bool × Rows
unfolding update
conditional_update chosen values rows = (any chosen rows, update chosen values rows)

-- record.task with some columns written
abbrev pub with_task : (DelegatedAgentTask → DelegatedAgentTask) → TaskRow → TaskRow
with_task f r = record r { task = f r.task }

-- A row of a task that a worker runs.
abbrev pub held_by : ℕ → Text → TaskRow → Bool
held_by id worker r = has_id id r && r.worker_id == worker

abbrev pub runs_by : ℕ → Text → TaskRow → Bool
runs_by id worker r = held_by id worker r && is_running r.task.status

abbrev pub reads_by : ℕ → Text → TaskRow → Bool
reads_by id worker r = runs_by id worker r && is_read r.task.request.lane

abbrev pub is_held_by : ℕ → Text → TaskRow → Bool
is_held_by id worker r = held_by id worker r && is_held r.task.status

abbrev pub beat_row : ℕ → TaskRow → TaskRow
beat_row now r = record r { heartbeat_at = some now }

unfoldable pub heartbeat : ℕ → ℕ → Text → Rows → Bool × Rows
unfolding conditional_update
heartbeat now id worker = conditional_update (is_held_by id worker) (beat_row now)

abbrev pub progress_row : ℕ → Text → Text → TaskRow → TaskRow
progress_row now stage summary r = record r {
  heartbeat_at = some now;
  task = record r.task {
    progress_stage = bounded stage 64;
    progress_summary = bounded summary 512;
  };
}

unfoldable pub update_progress : ℕ → ℕ → Text → Text → Text → Rows → Bool × Rows
unfolding conditional_update bounded
update_progress now id worker stage summary =
    conditional_update (runs_by id worker) (progress_row now stage summary)

abbrev pub retry_row : ℕ → Text → Text → TaskRow → TaskRow
retry_row next_attempt_at error_code error_message r = record r {
  worker_id = [];
  heartbeat_at = none;
  task = record r.task {
    status = waiting_retry;
    retry_count = r.task.retry_count + 1;
    next_attempt_at = some next_attempt_at;
    error_code = bounded error_code 128;
    error_message = bounded error_message 1000;
  };
}

unfoldable pub mark_waiting_retry : ℕ → Text → ℕ → Text → Text → Rows → Bool × Rows
unfolding conditional_update bounded
mark_waiting_retry id worker next_attempt_at error_code error_message =
    conditional_update (reads_by id worker) (retry_row next_attempt_at error_code error_message)

abbrev pub complete_row : ℕ → Text → Text → Option ℕ → Option ℕ → TaskRow → TaskRow
complete_row now result_summary result_text thread run r = record r {
  heartbeat_at = some now;
  task = record r.task {
    status = succeeded;
    result_summary = bounded result_summary 1000;
    result_text = bounded result_text 16000;
    agent_thread_id = thread;
    agent_run_id = run;
    finished_at = some now;
    notification_state = pending;
  };
}

unfoldable pub complete : ℕ → ℕ → Text → Text → Text → Option ℕ → Option ℕ → Rows → Bool × Rows
unfolding conditional_update bounded
complete now id worker result_summary result_text thread run =
    conditional_update (runs_by id worker) (complete_row now result_summary result_text thread run)

abbrev pub fail_row : ℕ → Text → Text → TaskRow → TaskRow
fail_row now error_code error_message r = record r {
  heartbeat_at = some now;
  task = record r.task {
    status = failed;
    error_code = bounded error_code 128;
    error_message = bounded error_message 1000;
    finished_at = some now;
    notification_state = pending;
  };
}

unfoldable pub fail : ℕ → ℕ → Text → Text → Text → Rows → Bool × Rows
unfolding conditional_update bounded
fail now id worker error_code error_message =
    conditional_update (runs_by id worker) (fail_row now error_code error_message)

abbrev pub cancelled_row : ℕ → TaskRow → TaskRow
cancelled_row now r = record r {
  heartbeat_at = some now;
  task = record r.task { status = cancelled; finished_at = some now; notification_state = pending };
}

unfoldable pub mark_cancelled : ℕ → ℕ → Text → Rows → Bool × Rows
unfolding conditional_update
mark_cancelled now id worker = conditional_update (is_held_by id worker) (cancelled_row now)

-- What request_cancel writes to a row that is not terminal.
abbrev pub cancel_row : ℕ → TaskRow → TaskRow
cancel_row now r =
    let asked =
      if is_some r.task.cancel_requested_at then r.task.cancel_requested_at else some now in
    if is_waiting r.task.status
    then with_task
        (λ t. record t {
          status = cancelled;
          finished_at = some now;
          notification_state = pending;
          cancel_requested_at = asked;
        })
        r
    else with_task (λ t. record t { status = cancel_requested; cancel_requested_at = asked }) r

abbrev cancel_found : ℕ → ℕ → Rows → Option TaskRow → CancelOutcome × Rows
cancel_found now id rows none =
    (record { task = none; cancel_requested = false; already_terminal = false }, rows)
cancel_found now id rows (some r) =
    if is_terminal r.task.status
    then (record { task = some r.task; cancel_requested = false; already_terminal = true }, rows)
    else (
      record {
        task = some (cancel_row now r).task;
        cancel_requested = true;
        already_terminal = false;
      },
      update (has_id id) (cancel_row now) rows,
    )

abbrev pub owned : ℕ → Text → TaskRow → Bool
owned id owner r = has_id id r && r.task.request.owner_person_id == owner

-- request_cancel; identities are distinct, so it writes the one row that it has read.
unfoldable pub request_cancel : ℕ → ℕ → Text → Rows → CancelOutcome × Rows
unfolding update
request_cancel now id owner rows = cancel_found now id rows (find (owned id owner) rows)

-- next_attempt_at is null or past.
abbrev pub is_due : ℕ → Option ℕ → Bool
is_due now none = true
is_due now (some at) = leb at now

abbrev lane_beq : DelegatedTaskLane → DelegatedTaskLane → Bool
lane_beq DelegatedTaskLane.read_parallel lane = is_read lane
lane_beq DelegatedTaskLane.mutation_serial lane = not (is_read lane)

-- The WHERE of claim_next.
abbrev pub is_claimable : ℕ → List DelegatedTaskLane → List Text → TaskRow → Bool
is_claimable now lanes excluded r =
    is_waiting r.task.status
    && any (lane_beq r.task.request.lane) lanes
    && is_due now r.task.next_attempt_at
    && not (any (λ owner. r.task.request.owner_person_id == owner) excluded)

-- What claim_next writes to the row that it claims.
abbrev pub claim_row : ℕ → Text → TaskRow → TaskRow
claim_row now worker r = record r {
  worker_id = worker;
  heartbeat_at = some now;
  task = record r.task {
    status = running;
    started_at = if is_some r.task.started_at then r.task.started_at else some now;
    next_attempt_at = none;
  };
}

abbrev pub claim_found : ℕ → Text → Rows → Option TaskRow → Option DelegatedAgentTask × Rows
claim_found now worker rows none = (none, rows)
claim_found now worker rows (some r) =
    (some (claim_row now worker r).task, update (has_id r.task.id) (claim_row now worker) rows)

-- The row that claim_next chooses: the oldest one, by its creation.
unfoldable pub next_claim :
    ℕ → (ℕ → Bool) → List DelegatedTaskLane → List Text → Rows → Option TaskRow
unfolding order_by
next_claim now locked lanes excluded rows = first (
    order_by (λ r. r.task.created_at)
      (keep (λ r. is_claimable now lanes excluded r && not (locked r.task.id)) rows))

-- claim_next
unfoldable pub claim_next :
    ℕ
    → (ℕ → Bool)
    → Text
    → List DelegatedTaskLane
    → List Text
    → Rows
    → Result TaskError (Option DelegatedAgentTask × Rows)
unfolding update next_claim
claim_next now locked worker_id lanes excluded rows = do
  let worker = strip worker_id
  raise_if (is_empty worker || ltb 128 (length worker) || nat_beq (length lanes) 0) value_error
  ok (claim_found now worker rows (next_claim now locked lanes excluded rows))
