-- ===== src/Delegation/Calls.antt =====
-- A run of the repository: the calls of features/agent/delegation/repository.py that change rows, in
-- any order.
use cywl_oopz.Prelude.{ℕ, Bool, List, [], ◌∷◌, Option, Result, ok, err}
use cywl_oopz.Prelude.Text.{Text}
use cywl_oopz.Delegation.Models.{DelegatedTaskLane, DelegatedTaskSubmission, TaskError}
use cywl_oopz.Delegation.Rows.{
  Rows, heartbeat, update_progress, mark_waiting_retry, complete, fail, mark_cancelled,
  request_cancel, claim_next,
}
use cywl_oopz.Delegation.Notices.{
  claim_notifications, claim_text_notifications, mark_presented, defer_notifications,
  recover_claimed_notifications, recover_stale,
}
use cywl_oopz.Delegation.Submissions.{VoiceSession, submit}

pub data Call : Type 0 where
  submits : List VoiceSession → ℕ → ℕ → DelegatedTaskSubmission → Call
  claims : ℕ → (ℕ → Bool) → Text → List DelegatedTaskLane → List Text → Call
  beats : ℕ → ℕ → Text → Call
  progresses : ℕ → ℕ → Text → Text → Text → Call
  retries : ℕ → Text → ℕ → Text → Text → Call
  completes : ℕ → ℕ → Text → Text → Text → Option ℕ → Option ℕ → Call
  fails : ℕ → ℕ → Text → Text → Text → Call
  cancels : ℕ → ℕ → Text → Call
  requests_cancel : ℕ → ℕ → Text → Call
  claims_notices : (ℕ → Bool) → ℕ → ℕ → Call
  claims_texts : (ℕ → Bool) → (ℕ → Bool) → ℕ → Call
  presents : ℕ → List ℕ → Call
  defers : List ℕ → Call
  recovers_notices : Call
  recovers : ℕ → (ℕ → Bool) → Call

-- A call that raises leaves the rows.
abbrev pub after {ℓ} : {A : Type ℓ} → Rows → Result TaskError (A × Rows) → Rows
after rows (ok (a, rows')) = rows'
after rows (err e) = rows

unfoldable pub apply : Call → Rows → Rows
apply (submits sessions now id request) rows = after rows (submit sessions now id request rows)
apply (claims now locked worker lanes excluded) rows =
    after rows (claim_next now locked worker lanes excluded rows)
apply (beats now id worker) rows = (heartbeat now id worker rows).1
apply (progresses now id worker stage summary) rows =
    (update_progress now id worker stage summary rows).1
apply (retries id worker at code message) rows =
    (mark_waiting_retry id worker at code message rows).1
apply (completes now id worker summary text thread run) rows =
    (complete now id worker summary text thread run rows).1
apply (fails now id worker code message) rows = (fail now id worker code message rows).1
apply (cancels now id worker) rows = (mark_cancelled now id worker rows).1
apply (requests_cancel now id owner) rows = (request_cancel now id owner rows).1
apply (claims_notices locked session limit) rows =
    after rows (claim_notifications locked session limit rows)
apply (claims_texts is_over locked limit) rows =
    after rows (claim_text_notifications is_over locked limit rows)
apply (presents now ids) rows = mark_presented now ids rows
apply (defers ids) rows = defer_notifications ids rows
apply recovers_notices rows = (recover_claimed_notifications rows).1
apply (recovers now locked) rows = (recover_stale now locked rows).1

unfoldable pub run : List Call → Rows → Rows
run [] rows = rows
run (call ∷ calls) rows = run calls (apply call rows)
