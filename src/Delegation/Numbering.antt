-- ===== src/Delegation/Numbering.antt =====
-- What submit and get_for_owner of features/agent/delegation/repository.py promise: a submission
-- that is sent again gives the task again, and a task has a number that finds it.
use cywl_oopz.Prelude.{
  ℕ, ◌+◌, ◌<◌, ◌≡◌, refl, sym, inl, inr, Bool, true, ◌&&◌, List, [], ◌∷◌, ◌++◌, none, some, arith,
  any, nat_beq, nat_beq_iff, Bool-cases, Option-cases, Result, ok, err, ==_refl, nat_eq, list_eq,
}
use cywl_oopz.Prelude.Text.{Text}
use cywl_oopz.Delegation.Models.{DelegatedTaskSubmission, DelegatedAgentTask, TaskRow, TaskError}
use cywl_oopz.Delegation.Rows.{Rows, find, has_id}
use cywl_oopz.Delegation.Submissions.{
  VoiceSession, find_session, is_submission, last_sequence, new_row, check_route, submit,
  submit_new, get_for_owner, is_owner,
}

is_submission_refl :
    (now id n : ℕ) (request : DelegatedTaskSubmission)
    → is_submission request (new_row now id n request) ≡ true
is_submission_refl now id n request = ground (
  arith,
  nat_beq_iff request.origin_voice_session_id request.origin_voice_session_id,
  ==_refl request.provider_call_id,
)

find-append :
    (p : TaskRow → Bool) (rows : Rows) (r : TaskRow)
    → find p rows ≡ none
    → p r ≡ true
    → find p (rows ++ r ∷ []) ≡ some r
find-append p [] r h k = rw k refl
find-append p (s ∷ rows) r h k = elim (Bool-cases (p s)) [
  | inl e ↦ absurd (ground arith)
  | inr e ↦ rw e (find-append p rows r (ground arith) k)
]

-- What submit does where nobody has submitted before.
submitted_new :
    (now id : ℕ) (request : DelegatedTaskSubmission) (rows rows' : Rows) (t : DelegatedAgentTask)
    (route : Result TaskError (Unit {0}))
    → submit_new now id request rows route ≡ ok (t, rows')
    → (t ≡ (new_row now id (last_sequence request.origin_voice_session_id rows + 1) request).task)
      × (rows'
          ≡ rows
            ++ new_row now id (last_sequence request.origin_voice_session_id rows + 1) request ∷ [])
submitted_new now id request rows rows' t (err e) h = cc
submitted_new now id request rows rows' t (ok u) h = elim (Bool-cases (any (has_id id) rows)) [
  | inl e ↦ absurd (ground arith)
  | inr e ↦ (ground arith, ground arith)
]

-- A submission that is sent once more, at any time and with any new identity, gives the same task
-- and leaves the rows.
pub submit_again :
    (sessions sessions' : List VoiceSession) (now now' id id' : ℕ)
    (request : DelegatedTaskSubmission) (t : DelegatedAgentTask) (rows rows' : Rows)
    → submit sessions now id request rows ≡ ok (t, rows')
    → submit sessions' now' id' request rows' ≡ ok (t, rows')
unfolding submit
submit_again sessions sessions' now now' id id' request t rows rows' h =
    let route =
      check_route request
        (find_session (λ v. nat_beq v.id request.origin_voice_session_id) sessions) in
    let n = last_sequence request.origin_voice_session_id rows + 1 in
    elim (Option-cases (find (is_submission request) rows)) [
      | inr (s, e) ↦
          let got : Result TaskError (DelegatedAgentTask × Rows) = ok (s.task, rows) in
          let k : got ≡ ok (t, rows') = (rw e at h) in
          let same : rows ≡ rows' = cc in let task : s.task ≡ t = cc in rw (sym same, e, task) refl
      | inl e ↦
          let k : submit_new now id request rows route ≡ ok (t, rows') = (rw e at h) in
          let (task, added) = submitted_new now id request rows rows' t route k in
          let found =
            find-append (is_submission request) rows (new_row now id n request) e
              (is_submission_refl now id n request) in
          rw (added, found, task) refl
    ]

-- The rows of a session that have a number.
abbrev has_number : ℕ → ℕ → TaskRow → Bool
has_number session n r =
    nat_beq r.task.request.origin_voice_session_id session && nat_beq r.task.session_sequence n

find-unnumbered :
    (owner : Text) (session n : ℕ) (rows : Rows)
    → last_sequence session rows < n
    → find (λ r. is_owner owner r && has_number session n r) rows ≡ none
unfolding last_sequence
find-unnumbered owner session n [] h = refl
find-unnumbered owner session n (r ∷ rows) h =
    ground (arith, find-unnumbered owner session n rows, nat_beq_iff r.task.session_sequence n)

-- A task that has just been taken in is found by its owner under its number in its session, and is
-- the first of the session to have that number.
pub get_for_owner-submit :
    (sessions : List VoiceSession) (now id : ℕ) (request : DelegatedTaskSubmission)
    (t : DelegatedAgentTask) (rows rows' : Rows)
    → find (is_submission request) rows ≡ none
    → submit sessions now id request rows ≡ ok (t, rows')
    → (get_for_owner
          (record {
            task_id = none;
            origin_voice_session_id = some request.origin_voice_session_id;
            session_sequence = some t.session_sequence;
          })
          request.owner_person_id
          rows'
        ≡ ok (some t))
      × (last_sequence request.origin_voice_session_id rows < t.session_sequence)
unfolding submit get_for_owner
get_for_owner-submit sessions now id request t rows rows' e h =
    let session = request.origin_voice_session_id in
    let owner = request.owner_person_id in
    let n = last_sequence session rows + 1 in
    let r = new_row now id n request in
    let route = check_route request (find_session (λ v. nat_beq v.id session) sessions) in
    let k : submit_new now id request rows route ≡ ok (t, rows') = (rw e at h) in
    let (task, added) = submitted_new now id request rows rows' t route k in
    let mine : is_owner owner r && has_number session n r ≡ true =
      ground (arith, ==_refl owner, nat_beq_iff session session, nat_beq_iff n n) in
    let found =
      find-append (λ s. is_owner owner s && has_number session n s) rows r
        (find-unnumbered owner session n rows (omega arith)) mine in
    (rw (added, task, found) refl, rw task (omega arith))
