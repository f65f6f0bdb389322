-- ===== src/Delegation/Steps.antt =====
-- Every call of features/agent/delegation/repository.py follows the lifecycle of the tasks.
use mathlib.Core.Path.{subst}
use cywl_oopz.Prelude.{
  ℕ, ◌+◌, ◌≡◌, refl, sym, inl, inr, Bool, true, not, ◌&&◌, ◌||◌, List, [], ◌∷◌, some, map, arith,
  any, keep, nat_beq, nat_beq_iff, leb, count-append, Bool-cases, Option-cases, Result-cases, ltb,
  length, nat_eq, list_eq,
}
use cywl_oopz.Prelude.Text.{Text, strip}
use cywl_oopz.Commands.Parsing.{is_empty}
use cywl_oopz.Delegation.Models.{DelegatedTaskLane, DelegatedTaskSubmission, TaskRow}
use cywl_oopz.Delegation.Rows.{
  Rows, has_id, find, order_by, is_claimable, claim_row, claim_found, next_claim, claim_next,
}
use cywl_oopz.Delegation.Notices.{
  is_due_notice, is_among, claim_notice, chosen_notices, claim_notices, id_of, claim_notifications,
  claim_text_notifications, finished_of,
}
use cywl_oopz.Delegation.Submissions.{
  VoiceSession, new_row, is_submission, check_route, find_session, submit, last_sequence,
}
use cywl_oopz.Delegation.Calls.{
  after, Call, apply, submits, claims, beats, progresses, retries, completes, fails, cancels,
  requests_cancel, claims_notices, claims_texts, presents, defers, recovers_notices, recovers,
}
use cywl_oopz.Delegation.Lifecycle.{
  Evolves, Follows, Follows-refl, Follows-update, Holds, Holds-unique, IsValid, is_sound, Step,
  Step-kept,
}
use cywl_oopz.Delegation.Held.{
  Holds-order_by, Holds-keep, Holds-take, Holds-first, Holds-among, Follows-snoc, any-count,
  after_guard,
}
use cywl_oopz.Delegation.Moves.{
  Follows-one, sound_of, request_cancel-Follows, claim_row-Evolves, heartbeat-Follows,
  update_progress-Follows, mark_waiting_retry-Follows, complete-Follows, fail-Follows,
  mark_cancelled-Follows, mark_presented-Follows, defer_notifications-Follows,
  recover_claimed_notifications-Follows, recover_stale-Follows,
}

-- The calls on valid rows.
module _ (rows : Rows) (valid : IsValid rows) where
  claim_notice-Evolves :
      (r : TaskRow) → is_sound r ≡ true → is_due_notice r ≡ true → Evolves r (claim_notice r)
  claim_notice-Evolves r a d = ground arith

  Holds-next_claim :
      (now : ℕ) (locked : ℕ → Bool) (lanes : List DelegatedTaskLane) (excluded : List Text)
      (r : TaskRow)
      → next_claim now locked lanes excluded rows ≡ some r
      → Holds r rows × (is_claimable now lanes excluded r && not (locked r.task.id) ≡ true)
  unfolding next_claim
  Holds-next_claim now locked lanes excluded r h =
      let free = λ (r : TaskRow). is_claimable now lanes excluded r && not (locked r.task.id) in
      let created = λ (r : TaskRow). r.task.created_at in
      Holds-keep free r rows (
        Holds-order_by created r (keep free rows)
          (Holds-first r (order_by created (keep free rows)) h))

  claim_next-Follows :
      (now : ℕ) (locked : ℕ → Bool) (worker : Text) (lanes : List DelegatedTaskLane)
      (excluded : List Text)
      → Follows [] rows (after rows (claim_next now locked worker lanes excluded rows))
  unfolding claim_next
  claim_next-Follows now locked worker lanes excluded =
      after_guard (Follows [] rows) rows
        (is_empty (strip worker) || ltb 128 (length (strip worker)) || nat_beq (length lanes) 0)
        (claim_found now (strip worker) rows (next_claim now locked lanes excluded rows))
        (Follows-refl rows valid.sound)
        (elim (Option-cases (next_claim now locked lanes excluded rows)) [
          | inl e ↦ rw e (Follows-refl rows valid.sound)
          | inr (r, e) ↦
              let (h, c) = Holds-next_claim now locked lanes excluded r e in
              rw e (
                Follows-one rows valid r (claim_row now (strip worker)) h (
                  claim_row-Evolves rows valid now (strip worker) r (sound_of rows valid r h)
                    (ground arith)))
        ])

  claim_notices-Follows :
      (locked : ℕ → Bool) (limit : ℕ) (wanted : TaskRow → Bool)
      → Follows [] rows (claim_notices locked limit wanted rows).1
  unfolding claim_notices chosen_notices
  claim_notices-Follows locked limit wanted =
      let free = λ (r : TaskRow). wanted r && is_due_notice r && not (locked r.task.id) in
      let chosen = chosen_notices locked limit wanted rows in
      Follows-update (is_among (map id_of chosen)) claim_notice rows valid.sound (λ s h c.
        let (r, k, same) = Holds-among s chosen c in
        let (held, due) = Holds-keep free r rows (
          Holds-order_by finished_of r (keep free rows)
            (Holds-take limit r (order_by finished_of (keep free rows)) k)) in
        let a = sound_of rows valid s h in
        let q : s ≡ r = Holds-unique rows r s valid.distinct held h same in
        let b = sound_of rows valid r held in
        subst (λ (t : TaskRow). Evolves t (claim_notice t)) (sym q)
          (claim_notice-Evolves r b (ground arith)))

  claim_notifications-Follows :
      (locked : ℕ → Bool) (session limit : ℕ)
      → Follows [] rows (after rows (claim_notifications locked session limit rows))
  unfolding claim_notifications
  claim_notifications-Follows locked session limit =
      let wanted = λ (r : TaskRow). nat_beq r.task.request.origin_voice_session_id session in
      after_guard (Follows [] rows) rows (not (leb 1 limit && leb limit 20))
        (claim_notices locked limit wanted rows) (Follows-refl rows valid.sound)
        (claim_notices-Follows locked limit wanted)

  claim_text_notifications-Follows :
      (is_over locked : ℕ → Bool) (limit : ℕ)
      → Follows [] rows (after rows (claim_text_notifications is_over locked limit rows))
  unfolding claim_text_notifications
  claim_text_notifications-Follows is_over locked limit =
      let wanted = λ (r : TaskRow). is_over r.task.request.origin_voice_session_id in
      after_guard (Follows [] rows) rows (not (leb 1 limit && leb limit 50))
        (claim_notices locked limit wanted rows) (Follows-refl rows valid.sound)
        (claim_notices-Follows locked limit wanted)

  submit-Step :
      (sessions : List VoiceSession) (now id : ℕ) (request : DelegatedTaskSubmission)
      → Step rows (after rows (submit sessions now id request rows))
  unfolding submit
  submit-Step sessions now id request =
      let r = new_row now id (last_sequence request.origin_voice_session_id rows + 1) request in
      let same = Step-kept rows rows valid (Follows-refl rows valid.sound) in
      elim (Option-cases (find (is_submission request) rows)) [
        | inr (s, e) ↦ rw e same
        | inl e ↦
            rw e
              (elim (Result-cases (
                check_route request
                  (find_session (λ v. nat_beq v.id request.origin_voice_session_id) sessions))) [
                    | inr (x, f) ↦ rw f same
                    | inl (u, f) ↦ rw f (elim (Bool-cases (any (has_id id) rows)) [
                      | inl g ↦ rw g same
                      | inr g ↦ rw g (record {
                        added = r ∷ [];
                        follows = Follows-snoc rows r valid.sound refl refl;
                        distinct = λ i. ground (
                          arith,
                          any-count id rows g,
                          count-append (has_id i) rows (r ∷ []),
                          valid.distinct i,
                          nat_beq_iff id i,
                        );
                      })
                    ])
                  ])
      ]

  -- Every call of the repository follows the lifecycle: the tasks keep their identity, their number
  -- and what was asked, their status and their notification move as the lifecycle allows, nobody is
  -- told of a task that is not over, and only queued tasks are added.
  pub apply-Step : (call : Call) → Step rows (apply call rows)
  unfolding apply
  apply-Step (submits sessions now id request) = submit-Step sessions now id request
  apply-Step (claims now locked worker lanes excluded) =
      Step-kept rows _ valid (claim_next-Follows now locked worker lanes excluded)
  apply-Step (beats now id worker) =
      Step-kept rows _ valid (heartbeat-Follows rows valid now id worker)
  apply-Step (progresses now id worker stage summary) =
      Step-kept rows _ valid (update_progress-Follows rows valid now id worker stage summary)
  apply-Step (retries id worker at code message) =
      Step-kept rows _ valid (mark_waiting_retry-Follows rows valid id worker at code message)
  apply-Step (completes now id worker summary text thread run) =
      Step-kept rows _ valid (complete-Follows rows valid now id worker summary text thread run)
  apply-Step (fails now id worker code message) =
      Step-kept rows _ valid (fail-Follows rows valid now id worker code message)
  apply-Step (cancels now id worker) =
      Step-kept rows _ valid (mark_cancelled-Follows rows valid now id worker)
  apply-Step (requests_cancel now id owner) =
      Step-kept rows _ valid (request_cancel-Follows rows valid now id owner)
  apply-Step (claims_notices locked session limit) =
      Step-kept rows _ valid (claim_notifications-Follows locked session limit)
  apply-Step (claims_texts is_over locked limit) =
      Step-kept rows _ valid (claim_text_notifications-Follows is_over locked limit)
  apply-Step (presents now ids) = Step-kept rows _ valid (mark_presented-Follows rows valid now ids)
  apply-Step (defers ids) = Step-kept rows _ valid (defer_notifications-Follows rows valid ids)
  apply-Step recovers_notices =
      Step-kept rows _ valid (recover_claimed_notifications-Follows rows valid)
  apply-Step (recovers now locked) =
      Step-kept rows _ valid (recover_stale-Follows rows valid now locked)
