-- ===== src/Delegation/Submissions.antt =====
-- How features/agent/delegation/repository.py takes tasks in and reads them, and the facade of
-- service.py over it. The lengths of the columns and the foreign keys are left out: a submission
-- that breaks one raises DatabaseError and changes nothing.
use mathlib.Core.Option
use cywl_oopz.Prelude.{
  ℕ, ◌+◌, Bool, true, not, ◌&&◌, ◌||◌, List, [], ◌∷◌, ◌++◌, Option, none, some, map, if◌then◌else◌,
  nat_beq, any, keep, take, max, Result, ok, err, ◌>>=◌, ◌>>◌, raise_if, ◌==◌, nat_eq, list_eq,
}
use mathlib.Core.List.{reverse}
use cywl_oopz.Prelude.Text.{Text}
use cywl_oopz.Delegation.Models.{
  DelegatedTaskStatus, queued, status_beq, pending, DelegatedTaskPolicy, DelegatedTaskSubmission,
  DelegatedAgentTask, TaskRow, TaskError, value_error, database_error, TaskRef, TaskListQuery,
}
use cywl_oopz.Delegation.Rows.{Rows, order_by, find, has_id}

-- The rows of voice_sessions that a submission reads.
pub record VoiceSession : Type 0 where
  pub id : ℕ
  pub owner_person_id : Text
  pub area_id : Text
  pub voice_channel_id : Text
  pub text_channel_id : Text

pub record ChannelSettings : Type 0 where
  pub enabled : Bool
  pub delegated_task_profile : Text

-- The other tables that resolve_submission_policy reads. A model counts as enabled when its provider
-- is enabled too.
pub record PolicyTables : Type 0 where
  pub voice_sessions : List VoiceSession
  pub channel_settings : Text → Text → Option ChannelSettings
  pub delegated_agent_model : Text → Option ℕ
  pub preferred_model : Text → Option ℕ
  pub default_model : Option ℕ
  pub is_enabled : ℕ → Bool

abbrev pub find_session : (VoiceSession → Bool) → List VoiceSession → Option VoiceSession
find_session p [] = none
find_session p (v ∷ vs) = if p v then some v else find_session p vs

abbrev or_database_error {ℓ} : {A : Type ℓ} → Option A → Result TaskError A
or_database_error none = err database_error
or_database_error (some a) = ok a

abbrev or_else {ℓ} : {A : Type ℓ} → Option A → Option A → Option A
or_else none b = b
or_else (some a) b = some a

abbrev enabled_model : (ℕ → Bool) → Option ℕ → Option ℕ
enabled_model is_enabled none = none
enabled_model is_enabled (some id) = if is_enabled id then some id else none

-- resolve_submission_policy
unfoldable pub resolve_submission_policy :
    PolicyTables → ℕ → Text → Result TaskError DelegatedTaskPolicy
resolve_submission_policy tables session_id owner = do
  voice ← or_database_error (
      find_session (λ v. nat_beq v.id session_id && v.owner_person_id == owner)
        tables.voice_sessions)
  channel ← or_database_error (tables.channel_settings voice.area_id voice.voice_channel_id)
  raise_if (not channel.enabled) database_error
  model ← or_database_error (
      enabled_model tables.is_enabled (
        or_else (tables.delegated_agent_model owner)
          (or_else (tables.preferred_model owner) tables.default_model)))
  ok (record { profile = channel.delegated_task_profile; agent_model_id = model })

-- _submission_record
abbrev pub is_submission : DelegatedTaskSubmission → TaskRow → Bool
is_submission request r =
    nat_beq r.task.request.origin_voice_session_id request.origin_voice_session_id
    && r.task.request.provider_call_id == request.provider_call_id

-- max(session_sequence) of a session, or 0.
unfoldable pub last_sequence : ℕ → Rows → ℕ
last_sequence session [] = 0
last_sequence session (r ∷ rows) =
    let rest = last_sequence session rows in
    if nat_beq r.task.request.origin_voice_session_id session
    then max r.task.session_sequence rest
    else rest

-- The row that submit adds, with the defaults of its columns.
abbrev pub new_row : ℕ → ℕ → ℕ → DelegatedTaskSubmission → TaskRow
new_row now id sequence request = record {
  worker_id = [];
  heartbeat_at = none;
  presented_at = none;
  task = record {
    id = id;
    session_sequence = sequence;
    request = request;
    status = queued;
    notification_state = pending;
    progress_stage = [];
    progress_summary = [];
    result_summary = [];
    result_text = [];
    error_code = [];
    error_message = [];
    retry_count = 0;
    cancel_requested_at = none;
    next_attempt_at = none;
    started_at = none;
    finished_at = none;
    created_at = now;
    agent_thread_id = none;
    agent_run_id = none;
  };
}

abbrev pub check_route : DelegatedTaskSubmission → Option VoiceSession → Result TaskError (Unit {0})
check_route request none = err database_error
check_route request (some voice) =
    raise_if
      (not (voice.owner_person_id == request.owner_person_id)
        || not (voice.area_id == request.area_id)
        || not (voice.voice_channel_id == request.voice_channel_id)
        || not (voice.text_channel_id == request.text_channel_id))
      database_error

abbrev pub submit_new :
    ℕ
    → ℕ
    → DelegatedTaskSubmission
    → Rows
    → Result TaskError (Unit {0})
    → Result TaskError (DelegatedAgentTask × Rows)
submit_new now id request rows (err e) = err e
submit_new now id request rows (ok u) =
    let r = new_row now id (last_sequence request.origin_voice_session_id rows + 1) request in
    if any (has_id id) rows then err database_error else ok (r.task, rows ++ r ∷ [])

abbrev submit_found :
    Option TaskRow
    → Rows
    → Result TaskError (DelegatedAgentTask × Rows)
    → Result TaskError (DelegatedAgentTask × Rows)
submit_found none rows fresh = fresh
submit_found (some r) rows fresh = ok (r.task, rows)

-- submit; `id` is the identity that uuid4 draws, which the primary key refuses for a second row. The row of the voice session is locked, so
-- the second look for the submission finds what the first one did.
unfoldable pub submit :
    List VoiceSession
    → ℕ
    → ℕ
    → DelegatedTaskSubmission
    → Rows
    → Result TaskError (DelegatedAgentTask × Rows)
unfolding last_sequence
submit sessions now id request rows = submit_found (find (is_submission request) rows) rows (
    submit_new now id request rows (
      check_route request
        (find_session (λ v. nat_beq v.id request.origin_voice_session_id) sessions)))

-- get
unfoldable pub get : ℕ → Rows → Option DelegatedAgentTask
get id rows = Option.map (λ r. r.task) (find (has_id id) rows)

-- The WHERE that a reference stands for; an incomplete one has none.
abbrev pub matching : Option ℕ → Option ℕ → Option ℕ → Option (TaskRow → Bool)
matching (some id) session sequence = some (has_id id)
matching none (some session) (some sequence) = some (λ r.
    nat_beq r.task.request.origin_voice_session_id session
    && nat_beq r.task.session_sequence sequence)
matching none _ _ = none

abbrev pub is_owner : Text → TaskRow → Bool
is_owner owner r = r.task.request.owner_person_id == owner

abbrev read_matching :
    Text → Rows → Option (TaskRow → Bool) → Result TaskError (Option DelegatedAgentTask)
read_matching owner rows none = err value_error
read_matching owner rows (some p) =
    ok (Option.map (λ r. r.task) (find (λ r. is_owner owner r && p r) rows))

-- get_for_owner
unfoldable pub get_for_owner : TaskRef → Text → Rows → Result TaskError (Option DelegatedAgentTask)
get_for_owner ref owner rows =
    read_matching owner rows (matching ref.task_id ref.origin_voice_session_id ref.session_sequence)

abbrev has_status : Option DelegatedTaskStatus → TaskRow → Bool
has_status none r = true
has_status (some status) r = status_beq r.task.status status

abbrev in_session : Option ℕ → TaskRow → Bool
in_session none r = true
in_session (some session) r = nat_beq r.task.request.origin_voice_session_id session

-- list_for_owner, the newest task first.
unfoldable pub list_for_owner : Text → TaskListQuery → Rows → List DelegatedAgentTask
unfolding order_by
list_for_owner owner query rows =
    map (λ r. r.task)
      (take query.limit (
        reverse (
          order_by (λ r. r.task.created_at)
            (keep
              (λ r.
                is_owner owner r
                && has_status query.status r
                && in_session query.origin_voice_session_id r)
              rows))))
