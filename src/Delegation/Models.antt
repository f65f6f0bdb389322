-- ===== src/Delegation/Models.antt =====
-- features/agent/delegation/models.py, and the row that keeps a task (storage/models.py). A UUID and
-- a time are numbers; the time of the last update is left out. The columns that a submission fixes
-- are kept as the submission.
use cywl_oopz.Prelude.{
  ℕ, Bool, true, false, not, ◌&&◌, List, Option, leb, Result, ok, ◌>>◌, raise_if, nat_eq, list_eq,
}
use cywl_oopz.Prelude.Text.{Text}

pub data DelegatedResultStyle : Type 0 where
  brief detailed : DelegatedResultStyle

pub data DelegatedTaskStatus : Type 0 where
  queued running waiting_retry cancel_requested : DelegatedTaskStatus
  succeeded failed cancelled interrupted : DelegatedTaskStatus

-- DelegatedTaskStatus.terminal
abbrev pub is_terminal : DelegatedTaskStatus → Bool
is_terminal succeeded = true
is_terminal failed = true
is_terminal cancelled = true
is_terminal interrupted = true
is_terminal _ = false

abbrev pub is_running : DelegatedTaskStatus → Bool
is_running running = true
is_running _ = false

abbrev pub is_cancel_requested : DelegatedTaskStatus → Bool
is_cancel_requested cancel_requested = true
is_cancel_requested _ = false

-- status in {QUEUED, WAITING_RETRY}
abbrev pub is_waiting : DelegatedTaskStatus → Bool
is_waiting queued = true
is_waiting waiting_retry = true
is_waiting _ = false

-- status in {RUNNING, CANCEL_REQUESTED}
abbrev pub is_held : DelegatedTaskStatus → Bool
is_held running = true
is_held cancel_requested = true
is_held _ = false

abbrev pub status_beq : DelegatedTaskStatus → DelegatedTaskStatus → Bool
status_beq queued queued = true
status_beq running running = true
status_beq waiting_retry waiting_retry = true
status_beq cancel_requested cancel_requested = true
status_beq succeeded succeeded = true
status_beq failed failed = true
status_beq cancelled cancelled = true
status_beq interrupted interrupted = true
status_beq _ _ = false

pub data DelegatedTaskLane : Type 0 where
  read_parallel mutation_serial : DelegatedTaskLane

abbrev pub is_read : DelegatedTaskLane → Bool
is_read read_parallel = true
is_read mutation_serial = false

pub data DelegatedTaskNotificationState : Type 0 where
  pending claimed presented deferred : DelegatedTaskNotificationState

abbrev pub is_claimed : DelegatedTaskNotificationState → Bool
is_claimed claimed = true
is_claimed _ = false

-- notification_state in {PENDING, DEFERRED}
abbrev pub is_open : DelegatedTaskNotificationState → Bool
is_open pending = true
is_open deferred = true
is_open _ = false

pub record DelegatedTaskPolicy : Type 0 where
  pub profile : Text
  pub agent_model_id : ℕ

pub record DelegatedTaskSubmission : Type 0 where
  pub owner_person_id : Text
  pub area_id : Text
  pub text_channel_id : Text
  pub voice_channel_id : Text
  pub origin_voice_session_id : ℕ
  pub provider_call_id : Text
  pub objective : Text
  pub result_style : DelegatedResultStyle
  pub lane : DelegatedTaskLane
  pub conflict_key : Text
  pub agent_model_id : ℕ
  pub allowed_tool_names : List Text

pub record DelegatedAgentTask : Type 0 where
  pub id : ℕ
  pub session_sequence : ℕ
  pub request : DelegatedTaskSubmission
  pub status : DelegatedTaskStatus
  pub notification_state : DelegatedTaskNotificationState
  pub progress_stage : Text
  pub progress_summary : Text
  pub result_summary : Text
  pub result_text : Text
  pub error_code : Text
  pub error_message : Text
  pub retry_count : ℕ
  pub cancel_requested_at : Option ℕ
  pub next_attempt_at : Option ℕ
  pub started_at : Option ℕ
  pub finished_at : Option ℕ
  pub created_at : ℕ
  pub agent_thread_id : Option ℕ
  pub agent_run_id : Option ℕ

-- DelegatedAgentTaskRecord: a task with the columns that stay in the repository. _task is the task.
pub record TaskRow : Type 0 where
  pub task : DelegatedAgentTask
  pub worker_id : Text
  pub heartbeat_at : Option ℕ
  pub presented_at : Option ℕ

pub data TaskError : Type 0 where
  value_error database_error : TaskError

-- TaskRef: a task by its identity, or by its session and its number there.
pub record TaskRef : Type 0 where
  pub task_id : Option ℕ
  pub origin_voice_session_id : Option ℕ
  pub session_sequence : Option ℕ

pub record TaskListQuery : Type 0 where
  pub status : Option DelegatedTaskStatus
  pub limit : ℕ
  pub origin_voice_session_id : Option ℕ

-- TaskListQuery.__post_init__
unfoldable pub make_query :
    Option DelegatedTaskStatus → ℕ → Option ℕ → Result TaskError TaskListQuery
make_query status limit session = do
  raise_if (not (leb 1 limit && leb limit 20)) value_error
  ok (record { status = status; limit = limit; origin_voice_session_id = session })

pub record CancelOutcome : Type 0 where
  pub task : Option DelegatedAgentTask
  pub cancel_requested : Bool
  pub already_terminal : Bool

pub record RecoverySummary : Type 0 where
  pub requeued : ℕ
  pub cancelled : ℕ
  pub interrupted : ℕ
  pub task_ids : List ℕ
