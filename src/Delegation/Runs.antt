-- ===== src/Delegation/Runs.antt =====
-- What holds of the tasks over any calls of features/agent/delegation/repository.py.
use mathlib.Core.Path.{subst}
use cywl_oopz.Prelude.{◌≡◌, refl, ap, ◌∙◌, inl, inr, true, List, [], ◌∷◌, arith}
use cywl_oopz.Delegation.Models.{
  DelegatedTaskStatus, is_terminal, DelegatedTaskNotificationState, presented, TaskRow,
}
use cywl_oopz.Delegation.Rows.{Rows}
use cywl_oopz.Delegation.Calls.{Call, apply, run}
use cywl_oopz.Delegation.Lifecycle.{
  Evolves, Follows, evolves, Holds, IsValid, Step-IsValid, may_follow, may_notify,
}
use cywl_oopz.Delegation.Steps.{apply-Step}

pub IsValid-nil : IsValid []
IsValid-nil = record { distinct = λ i. omega arith; sound = tt }

-- From valid rows, any calls leave valid rows: identities are distinct, and nobody has been told of a
-- task that is not over.
run-IsValid : (calls : List Call) (rows : Rows) → IsValid rows → IsValid (run calls rows)
unfolding run
run-IsValid [] rows v = v
run-IsValid (call ∷ calls) rows v =
    run-IsValid calls (apply call rows)
      (Step-IsValid rows (apply call rows) (apply-Step rows v call))

Follows-Holds :
    (added rows rows' : Rows) (r : TaskRow)
    → Follows added rows rows'
    → Holds r rows
    → (s : TaskRow) × Holds s rows' × Evolves r s
Follows-Holds added [] rows' r f h = absurd h
Follows-Holds added (t ∷ rows) [] r f h = elim f [ ]
Follows-Holds added (t ∷ rows) (s ∷ rows') r (evolves e f) (inl q) =
    (s, inl refl, subst (λ u. Evolves u s) q e)
Follows-Holds added (t ∷ rows) (s ∷ rows') r (evolves e f) (inr h) =
    let (u, k, e') = Follows-Holds added rows rows' r f h in (u, inr k, e')

-- A task that is over, and the same task later.
pub record IsSettled (r s : TaskRow) : Type 0 where
  pub same_id : s.task.id ≡ r.task.id
  pub same_request : s.task.request ≡ r.task.request
  pub status : s.task.status ≡ r.task.status
  pub result_text : s.task.result_text ≡ r.task.result_text
  pub error_code : s.task.error_code ≡ r.task.error_code
  pub finished_at : s.task.finished_at ≡ r.task.finished_at
  pub told : r.task.notification_state ≡ presented → s.task.notification_state ≡ presented

follow_terminal : (a b : DelegatedTaskStatus) → is_terminal a ≡ true → may_follow a b ≡ true → b ≡ a
follow_terminal a b t f = ground arith

notify_presented :
    (a b : DelegatedTaskNotificationState) → a ≡ presented → may_notify a b ≡ true → b ≡ presented
notify_presented a b p f = ground arith

Evolves-IsSettled : (r s : TaskRow) → is_terminal r.task.status ≡ true → Evolves r s → IsSettled r s
Evolves-IsSettled r s t e =
    let (text, code, at) = e.settled t in
    record {
      same_id = e.same_id;
      same_request = e.same_request;
      status = follow_terminal r.task.status s.task.status t e.follows;
      result_text = text;
      error_code = code;
      finished_at = at;
      told = λ p. notify_presented r.task.notification_state s.task.notification_state p e.notifies;
    }

IsSettled-trans : (r s t : TaskRow) → IsSettled r s → IsSettled s t → IsSettled r t
IsSettled-trans r s t a b = record {
  same_id = b.same_id ∙ a.same_id;
  same_request = b.same_request ∙ a.same_request;
  status = b.status ∙ a.status;
  result_text = b.result_text ∙ a.result_text;
  error_code = b.error_code ∙ a.error_code;
  finished_at = b.finished_at ∙ a.finished_at;
  told = λ p. b.told (a.told p);
}

IsSettled-refl : (r : TaskRow) → IsSettled r r
IsSettled-refl r = record {
  same_id = refl;
  same_request = refl;
  status = refl;
  result_text = refl;
  error_code = refl;
  finished_at = refl;
  told = λ p. p;
}

-- A task that is over keeps its status, its result and its time over any later calls, and once it has
-- been presented it stays so: nobody is told of it twice.
pub run-IsSettled :
    (calls : List Call) (rows : Rows) (r : TaskRow)
    → IsValid rows
    → Holds r rows
    → is_terminal r.task.status ≡ true
    → (s : TaskRow) × Holds s (run calls rows) × IsSettled r s
unfolding run
run-IsSettled [] rows r v h t = (r, h, IsSettled-refl r)
run-IsSettled (call ∷ calls) rows r v h t =
    let step = apply-Step rows v call in
    let (s, k, e) = Follows-Holds step.added rows (apply call rows) r step.follows h in
    let settled = Evolves-IsSettled r s t e in
    let (u, w, later) =
      run-IsSettled calls (apply call rows) s (Step-IsValid rows (apply call rows) step) k
        (ap is_terminal settled.status ∙ t) in
    (u, w, IsSettled-trans r s u settled later)
