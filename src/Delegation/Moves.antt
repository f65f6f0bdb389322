-- ===== src/Delegation/Moves.antt =====
-- The calls of features/agent/delegation/repository.py that write rows of a predicate follow the
-- lifecycle of the tasks.
use mathlib.Core.Path.{subst}
use cywl_oopz.Prelude.{
  ℕ, ◌≡◌, sym, inl, inr, Bool, true, false, List, [], Option, arith, nat_beq_iff, Bool-cases,
  Option-cases, nat_eq, list_eq,
}
use cywl_oopz.Prelude.Text.{Text}
use cywl_oopz.Delegation.Models.{is_terminal, is_waiting, TaskRow}
use cywl_oopz.Delegation.Rows.{
  Rows, has_id, update, find, owned, cancel_row, claim_row, is_held_by, runs_by, reads_by, beat_row,
  progress_row, retry_row, complete_row, fail_row, cancelled_row, heartbeat, update_progress,
  mark_waiting_retry, complete, fail, mark_cancelled, request_cancel,
}
use cywl_oopz.Delegation.Notices.{
  mark_presented, defer_notifications, recover_claimed_notifications, recover_stale, recover_row,
  is_stale, is_claimed_among, present_row, defer_row, has_claimed,
}
use cywl_oopz.Delegation.Lifecycle.{
  Evolves, Follows, Follows-refl, Follows-update, Holds, Holds-unique, All-Holds, IsValid, is_sound,
}
use cywl_oopz.Delegation.Held.{Holds-find}

-- The rows that a call of one row changes, by the row that it has read.
module _ (rows : Rows) (valid : IsValid rows) where
  pub Follows-one :
      (r : TaskRow) (values : TaskRow → TaskRow)
      → Holds r rows
      → Evolves r (values r)
      → Follows [] rows (update (has_id r.task.id) values rows)
  Follows-one r values h e = Follows-update (has_id r.task.id) values rows valid.sound (λ s k same.
      let q = Holds-unique rows r s valid.distinct h k ((nat_beq_iff s.task.id r.task.id).0 same) in
      subst (λ t. Evolves t (values t)) (sym q) e)

  pub sound_of : (r : TaskRow) → Holds r rows → is_sound r ≡ true
  sound_of r h = All-Holds (λ r. is_sound r ≡ true) rows r valid.sound h

  pub cancel_row-Evolves :
      (now : ℕ) (r : TaskRow)
      → is_sound r ≡ true
      → is_terminal r.task.status ≡ false
      → Evolves r (cancel_row now r)
  cancel_row-Evolves now r a t = ground arith

  pub request_cancel-Follows :
      (now id : ℕ) (owner : Text) → Follows [] rows (request_cancel now id owner rows).1
  unfolding request_cancel
  request_cancel-Follows now id owner = elim (Option-cases (find (owned id owner) rows)) [
    | inl e ↦ rw e (Follows-refl rows valid.sound)
    | inr (r, e) ↦
        let (h, mine) = Holds-find (owned id owner) rows r e in
        let same : r.task.id ≡ id = ground (arith, nat_beq_iff r.task.id id) in
        elim (Bool-cases (is_terminal r.task.status)) [
          | inl t ↦ rw (e, t) (Follows-refl rows valid.sound)
          | inr t ↦
              rw (e, t)
                (subst (λ i. Follows [] rows (update (has_id i) (cancel_row now) rows)) same
                  (Follows-one r (cancel_row now) h (cancel_row-Evolves now r (sound_of r h) t)))
        ]
  ]

  pub claim_row-Evolves :
      (now : ℕ) (worker : Text) (r : TaskRow)
      → is_sound r ≡ true
      → is_waiting r.task.status ≡ true
      → Evolves r (claim_row now worker r)
  claim_row-Evolves now worker r a t = ground arith

  pub heartbeat-Follows :
      (now id : ℕ) (worker : Text) → Follows [] rows (heartbeat now id worker rows).1
  unfolding heartbeat
  heartbeat-Follows now id worker =
      Follows-update (is_held_by id worker) (beat_row now) rows valid.sound
        (λ r h c. let a = sound_of r h in ground arith)

  pub update_progress-Follows :
      (now id : ℕ) (worker stage summary : Text)
      → Follows [] rows (update_progress now id worker stage summary rows).1
  unfolding update_progress
  update_progress-Follows now id worker stage summary =
      Follows-update (runs_by id worker) (progress_row now stage summary) rows valid.sound
        (λ r h c. let a = sound_of r h in ground arith)

  pub mark_waiting_retry-Follows :
      (id : ℕ) (worker : Text) (at : ℕ) (code message : Text)
      → Follows [] rows (mark_waiting_retry id worker at code message rows).1
  unfolding mark_waiting_retry
  mark_waiting_retry-Follows id worker at code message =
      Follows-update (reads_by id worker) (retry_row at code message) rows valid.sound
        (λ r h c. let a = sound_of r h in ground arith)

  pub complete-Follows :
      (now id : ℕ) (worker summary text : Text) (thread run : Option ℕ)
      → Follows [] rows (complete now id worker summary text thread run rows).1
  unfolding complete
  complete-Follows now id worker summary text thread run =
      Follows-update (runs_by id worker) (complete_row now summary text thread run) rows valid.sound
        (λ r h c. let a = sound_of r h in ground arith)

  pub fail-Follows :
      (now id : ℕ) (worker code message : Text)
      → Follows [] rows (fail now id worker code message rows).1
  unfolding fail
  fail-Follows now id worker code message =
      Follows-update (runs_by id worker) (fail_row now code message) rows valid.sound
        (λ r h c. let a = sound_of r h in ground arith)

  pub mark_cancelled-Follows :
      (now id : ℕ) (worker : Text) → Follows [] rows (mark_cancelled now id worker rows).1
  unfolding mark_cancelled
  mark_cancelled-Follows now id worker =
      Follows-update (is_held_by id worker) (cancelled_row now) rows valid.sound
        (λ r h c. let a = sound_of r h in ground arith)

  pub mark_presented-Follows :
      (now : ℕ) (ids : List ℕ) → Follows [] rows (mark_presented now ids rows)
  unfolding mark_presented
  mark_presented-Follows now ids =
      Follows-update (is_claimed_among ids) (present_row now) rows valid.sound
        (λ r h c. let a = sound_of r h in ground arith)

  pub defer_notifications-Follows : (ids : List ℕ) → Follows [] rows (defer_notifications ids rows)
  unfolding defer_notifications
  defer_notifications-Follows ids =
      Follows-update (is_claimed_among ids) defer_row rows valid.sound
        (λ r h c. let a = sound_of r h in ground arith)

  pub recover_claimed_notifications-Follows : Follows [] rows (recover_claimed_notifications rows).1
  unfolding recover_claimed_notifications
  recover_claimed_notifications-Follows =
      Follows-update has_claimed defer_row rows valid.sound
        (λ r h c. let a = sound_of r h in ground arith)

  pub recover_stale-Follows :
      (now : ℕ) (locked : ℕ → Bool) → Follows [] rows (recover_stale now locked rows).1
  unfolding recover_stale
  recover_stale-Follows now locked =
      Follows-update (is_stale locked) (recover_row now) rows valid.sound
        (λ r h c. let a = sound_of r h in ground arith)
