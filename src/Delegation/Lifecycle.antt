-- ===== src/Delegation/Lifecycle.antt =====
-- The lifecycle that a delegated task promises, independent of how
-- features/agent/delegation/repository.py writes its rows.
use mathlib.Core.Path.{subst}
use cywl_oopz.Prelude.{
  ℕ, ◌+◌, ◌≤◌, ◌≡◌, refl, sym, ap, ◌∙◌, inl, inr, ◌⊎◌, Bool, true, false, ◌||◌, [], ◌∷◌, arith,
  count, nat_beq_iff, All, Bool-cases,
}
use cywl_oopz.Delegation.Models.{
  DelegatedTaskStatus, queued, running, waiting_retry, cancel_requested, succeeded, failed,
  cancelled, interrupted, is_terminal, DelegatedTaskNotificationState, pending, claimed, presented,
  deferred, TaskRow,
}
use cywl_oopz.Delegation.Rows.{Rows, has_id, update}

-- The statuses that may follow one another.
abbrev pub may_follow : DelegatedTaskStatus → DelegatedTaskStatus → Bool
may_follow queued queued = true
may_follow queued running = true
may_follow queued cancelled = true
may_follow waiting_retry waiting_retry = true
may_follow waiting_retry running = true
may_follow waiting_retry cancelled = true
may_follow running _ = true
may_follow cancel_requested cancel_requested = true
may_follow cancel_requested cancelled = true
may_follow succeeded succeeded = true
may_follow failed failed = true
may_follow cancelled cancelled = true
may_follow interrupted interrupted = true
may_follow _ _ = false

-- The states of a notification that may follow one another: it is claimed, and then presented once
-- and for all or deferred to another claim.
abbrev pub may_notify : DelegatedTaskNotificationState → DelegatedTaskNotificationState → Bool
may_notify pending pending = true
may_notify pending claimed = true
may_notify claimed claimed = true
may_notify claimed presented = true
may_notify claimed deferred = true
may_notify deferred deferred = true
may_notify deferred claimed = true
may_notify presented presented = true
may_notify _ _ = false

abbrev pub is_pending : DelegatedTaskNotificationState → Bool
is_pending pending = true
is_pending _ = false

-- Nobody is told of a task that is not over.
abbrev pub is_sound : TaskRow → Bool
is_sound r = is_terminal r.task.status || is_pending r.task.notification_state

-- A row and what it is later.
pub record Evolves (r s : TaskRow) : Type 0 where
  pub same_id : s.task.id ≡ r.task.id
  pub same_sequence : s.task.session_sequence ≡ r.task.session_sequence
  pub same_request : s.task.request ≡ r.task.request
  pub follows : may_follow r.task.status s.task.status ≡ true
  pub notifies : may_notify r.task.notification_state s.task.notification_state ≡ true
  pub sound : is_sound s ≡ true
  pub settled :
      is_terminal r.task.status ≡ true
      → (s.task.result_text ≡ r.task.result_text)
        × (s.task.error_code ≡ r.task.error_code)
        × (s.task.finished_at ≡ r.task.finished_at)

-- Every row has evolved, and queued tasks have been added.
pub data Follows (added : Rows) : Rows → Rows → Type 0 where
  adds :
      All (λ s. (s.task.status ≡ queued) × (s.task.notification_state ≡ pending)) added
      → Follows added [] added
  evolves :
      {r s : TaskRow} {rows rows' : Rows}
      → Evolves r s
      → Follows added rows rows'
      → Follows added (r ∷ rows) (s ∷ rows')

abbrev pub Holds : TaskRow → Rows → Type 0
Holds r [] = ⊥
Holds r (s ∷ rows) = (s ≡ r) ⊎ Holds r rows

-- Identities are distinct, and no open task has been announced.
pub record IsValid (rows : Rows) : Type 0 where
  pub distinct : (i : ℕ) → count (has_id i) rows ≤ 1
  pub sound : All (λ r. is_sound r ≡ true) rows

pub All-Holds {κ} :
    (P : TaskRow → Type κ) (rows : Rows) (r : TaskRow) → All P rows → Holds r rows → P r
All-Holds P [] r a h = absurd h
All-Holds P (s ∷ rows) r a (inl e) = subst P e a.0
All-Holds P (s ∷ rows) r a (inr h) = All-Holds P rows r a.1 h

count-Holds : (r : TaskRow) (rows : Rows) → Holds r rows → 1 ≤ count (has_id r.task.id) rows
count-Holds r [] h = absurd h
count-Holds r (s ∷ rows) (inl e) =
    ground (arith, ap (λ (t : TaskRow). t.task.id) e, nat_beq_iff s.task.id r.task.id)
count-Holds r (s ∷ rows) (inr h) = ground (arith, count-Holds r rows h)

-- Distinct identities tell the rows apart.
pub Holds-unique :
    (rows : Rows) (r s : TaskRow)
    → ((i : ℕ) → count (has_id i) rows ≤ 1)
    → Holds r rows
    → Holds s rows
    → s.task.id ≡ r.task.id
    → s ≡ r
Holds-unique [] r s d h k e = absurd h
Holds-unique (t ∷ rows) r s d (inl p) (inl q) e = sym q ∙ p
Holds-unique (t ∷ rows) r s d (inl p) (inr k) e = absurd (
    ground (
      arith,
      d s.task.id,
      count-Holds s rows k,
      ap (λ (t : TaskRow). t.task.id) p,
      nat_beq_iff t.task.id s.task.id,
    ))
Holds-unique (t ∷ rows) r s d (inr h) (inl q) e = absurd (
    ground (
      arith,
      d r.task.id,
      count-Holds r rows h,
      ap (λ (t : TaskRow). t.task.id) q,
      nat_beq_iff t.task.id r.task.id,
    ))
Holds-unique (t ∷ rows) r s d (inr h) (inr k) e =
    Holds-unique rows r s (λ i. ground (arith, d i)) h k e

notify_refl : (n : DelegatedTaskNotificationState) → may_notify n n ≡ true
notify_refl n = ground arith

follow_refl : (s : DelegatedTaskStatus) → may_follow s s ≡ true
follow_refl s = ground arith

pub Evolves-refl : (r : TaskRow) → is_sound r ≡ true → Evolves r r
Evolves-refl r s = record {
  same_id = refl;
  same_sequence = refl;
  same_request = refl;
  follows = follow_refl r.task.status;
  notifies = notify_refl r.task.notification_state;
  sound = s;
  settled = λ h. (refl, refl, refl);
}

pub Follows-refl : (rows : Rows) → All (λ r. is_sound r ≡ true) rows → Follows [] rows rows
Follows-refl [] a = adds tt
Follows-refl (r ∷ rows) a = evolves (Evolves-refl r a.0) (Follows-refl rows a.1)

-- An update of rows that evolve.
pub Follows-update :
    (chosen : TaskRow → Bool) (values : TaskRow → TaskRow) (rows : Rows)
    → All (λ r. is_sound r ≡ true) rows
    → ((r : TaskRow) → Holds r rows → chosen r ≡ true → Evolves r (values r))
    → Follows [] rows (update chosen values rows)
unfolding update
Follows-update chosen values [] a h = adds tt
Follows-update chosen values (r ∷ rows) a h =
    let rest = Follows-update chosen values rows a.1 (λ s k. h s (inr k)) in
    elim (Bool-cases (chosen r)) [
      | inl e ↦ rw e (evolves (h r (inl refl) e) rest)
      | inr e ↦ rw e (evolves (Evolves-refl r a.0) rest)
    ]

-- What a call leaves: rows that follow those before it, with distinct identities.
pub record Step (rows rows' : Rows) : Type 0 where
  pub added : Rows
  pub follows : Follows added rows rows'
  pub distinct : (i : ℕ) → count (has_id i) rows' ≤ 1

pub count-Follows :
    (added rows rows' : Rows) (i : ℕ)
    → Follows added rows rows'
    → count (has_id i) rows' ≡ count (has_id i) rows + count (has_id i) added
count-Follows added [] rows' i (adds a) = omega arith
count-Follows added (r ∷ rows) [] i f = elim f [ ]
count-Follows added (r ∷ rows) (s ∷ rows') i (evolves e f) =
    ground (arith, e.same_id, count-Follows added rows rows' i f)

sound-added :
    (added : Rows)
    → All (λ s. (s.task.status ≡ queued) × (s.task.notification_state ≡ pending)) added
    → All (λ r. is_sound r ≡ true) added
sound-added [] a = tt
sound-added (r ∷ added) a = (ground arith, sound-added added a.1)

sound-Follows :
    (added rows rows' : Rows) → Follows added rows rows' → All (λ r. is_sound r ≡ true) rows'
sound-Follows added [] rows' (adds a) = sound-added added a
sound-Follows added (r ∷ rows) [] f = elim f [ ]
sound-Follows added (r ∷ rows) (s ∷ rows') (evolves e f) =
    (e.sound, sound-Follows added rows rows' f)

pub Step-IsValid : (rows rows' : Rows) → Step rows rows' → IsValid rows'
Step-IsValid rows rows' s = record {
  distinct = s.distinct;
  sound = sound-Follows s.added rows rows' s.follows;
}

-- A call that adds nothing.
pub Step-kept : (rows rows' : Rows) → IsValid rows → Follows [] rows rows' → Step rows rows'
Step-kept rows rows' v f = record {
  added = [];
  follows = f;
  distinct = λ i. omega (arith, count-Follows [] rows rows' i f, v.distinct i);
}
