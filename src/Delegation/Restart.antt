-- ===== src/Delegation/Restart.antt =====
-- The scheduler of features/agent/delegation/scheduler.py when it is closed and started again, with
-- the recoveries and claims of repository.py.
use cywl_oopz.Prelude.{
  if◌then◌else◌, ℕ, zero, suc, ◌+◌, ◌-◌, ◌≤◌, ◌≡◌, refl, ap, ◌∙◌, Bool, true, false, ◌&&◌, ◌||◌,
  List, [], ◌∷◌, ◌++◌, Option, none, some, arith, any, count, length, length-append, ltb, ok,
  Bool-cases, Result-cases, inl, inr,
}
use cywl_oopz.Prelude.Text.{Text, strip}
use cywl_oopz.Prelude.Dict.{Dict}
use cywl_oopz.Commands.Parsing.{is_empty}
use cywl_oopz.Delegation.Models.{DelegatedAgentTask, read_parallel, TaskRow, is_held}
use cywl_oopz.Delegation.Rows.{Rows, update}
use cywl_oopz.Delegation.Notices.{recover_stale, recover_row, is_stale, is_stale_read}
use cywl_oopz.Delegation.Claims.{is_free, IsAnswer, recover_stale_frees, claim_next-IsAnswer}
use cywl_oopz.Delegation.Scheduler.{
  Scheduler, Pass, meet, pop_all, claim, start_claimed, fill_reads, filled_reads, count_owners,
  owners_at, add_owner,
}
use cywl_oopz.Delegation.Operations.{recover, start, aclose}
use cywl_oopz.Delegation.Scheduling.{pop_all-nil}

abbrev pub unlocked : ℕ → Bool
unlocked id = false

-- A row that a claim of a reading task can take.
abbrev pub reads_free : ℕ → TaskRow → Bool
reads_free now = is_free now unlocked (read_parallel ∷ []) []

-- A reading task that some worker was running, or that a claim can take.
abbrev pub is_unfinished : ℕ → TaskRow → Bool
is_unfinished now r = is_stale_read unlocked r || reads_free now r

any-update :
    (p q chosen : TaskRow → Bool) (values : TaskRow → TaskRow) (rows : Rows)
    → ((r : TaskRow) → p r ≡ true → q (if chosen r then values r else r) ≡ true)
    → any p rows ≡ true
    → any q (update chosen values rows) ≡ true
unfolding update
any-update p q chosen values [] h a = a
any-update p q chosen values (r ∷ rows) h a = elim (Bool-cases (p r)) [
  | inl e ↦ ground (arith, h r e)
  | inr e ↦ ground (arith, any-update p q chosen values rows h, a, e)
]

-- A recovery that passes over what others have locked leaves an unfinished task unfinished.
recover_row-unfinished :
    (at now : ℕ) (locked : ℕ → Bool) (r : TaskRow)
    → at ≤ now
    → is_unfinished now r ≡ true
    → is_unfinished now (if is_stale locked r then recover_row at r else r) ≡ true
recover_row-unfinished at now locked r le h = ground (arith, h, le)

-- A recovery that meets no lock makes it free.
recover_row-free :
    (at now : ℕ) (r : TaskRow)
    → at ≤ now
    → is_unfinished now r ≡ true
    → reads_free now (if is_stale unlocked r then recover_row at r else r) ≡ true
recover_row-free at now r le h = ground (arith, h, le)

-- An await that meets no failure, no lock and nothing that others do.
abbrev pub calm : ℕ → Pass
calm at = record { ended = []; others = λ rows. rows; fails = false; now = at; locked = unlocked }

IsAnswer-some :
    (p : TaskRow → Bool) (now : ℕ) (worker : Text) (rows rows' : Rows)
    (answer : Option DelegatedAgentTask)
    → IsAnswer p now worker rows answer rows'
    → any p rows ≡ true
    → (t : DelegatedAgentTask) × (answer ≡ some t)
IsAnswer-some p now worker rows rows' none (idle, kept) free = absurd (ground (arith, idle, free))
IsAnswer-some p now worker rows rows' (some t) given free = (t, refl)

claim-some :
    (now : ℕ) (s : Scheduler)
    → is_empty (strip s.limits.worker_id) || ltb 128 (length (strip s.limits.worker_id)) ≡ false
    → any (reads_free now) s.rows ≡ true
    → (t : DelegatedAgentTask) × (rows : Rows) × (claim
          (calm now)
          (meet (calm now) s)
          (read_parallel ∷ [])
          []
        ≡ ok (some t, rows))
unfolding claim
claim-some now s valid free =
    let (answer, rows, q, given) =
      claim_next-IsAnswer now unlocked s.limits.worker_id (read_parallel ∷ []) [] s.rows
        (ground (arith, valid)) in
    let (t, e) =
      IsAnswer-some (reads_free now) now (strip s.limits.worker_id) s.rows rows answer given free in
    (t, rows, q ∙ ap (λ a. ok (a, rows)) e)

read_active-grows :
    (room : ℕ) (passes : ℕ → Pass) (n : ℕ) (ra : List DelegatedAgentTask) (oc : Dict Text ℕ)
    (s : Scheduler)
    → length ra ≤ length (fill_reads room passes n ra oc s).read_active
unfolding fill_reads
read_active-grows zero passes n ra oc s = omega arith
read_active-grows (suc room) passes n ra oc s =
    let excluded = owners_at s.limits.per_user_concurrency oc in
    elim (Result-cases (claim (passes n) (meet (passes n) s) (read_parallel ∷ []) excluded)) [
      | inl ((none, rows), e) ↦ rw e (omega arith)
      | inl ((some t, rows), e) ↦ rw e (
          omega (
            arith,
            length-append ra (t ∷ []),
            read_active-grows room passes (n + 1) (ra ++ t ∷ [])
                (add_owner oc t.request.owner_person_id)
                (start_claimed t (record (meet (passes n) s) { rows = rows })),
          ))
      | inr (x, e) ↦ rw e (omega arith)
    ]

first-read :
    (room now : ℕ) (passes : ℕ → Pass) (s : Scheduler)
    → is_empty (strip s.limits.worker_id) || ltb 128 (length (strip s.limits.worker_id)) ≡ false
    → passes 0 ≡ calm now
    → any (reads_free now) s.rows ≡ true
    → 1 ≤ length (fill_reads (suc room) passes 0 [] [] s).read_active
unfolding fill_reads
first-read room now passes s valid first free =
    let (t, rows, q) = claim-some now s valid free in
    rw (first, q)
      (read_active-grows room passes 1 (t ∷ []) (add_owner [] t.request.owner_person_id)
        (start_claimed t (record (meet (calm now) s) { rows = rows })))

fill-first :
    (limit now : ℕ) (passes : ℕ → Pass) (s : Scheduler)
    → 1 ≤ limit
    → is_empty (strip s.limits.worker_id) || ltb 128 (length (strip s.limits.worker_id)) ≡ false
    → passes 0 ≡ calm now
    → any (reads_free now) s.rows ≡ true
    → 1 ≤ length (fill_reads limit passes 0 [] [] s).read_active
fill-first zero now passes s room valid first free = absurd (omega (arith, room))
fill-first (suc limit) now passes s room valid first free =
    first-read limit now passes s valid first free

held-unlocked :
    (rows : Rows) → count (λ (r : TaskRow). is_held r.task.status && unlocked r.task.id) rows ≡ 0
held-unlocked [] = refl
held-unlocked (r ∷ rows) = ground (arith, held-unlocked rows)

recover-unfinished :
    (pass : Pass) (now : ℕ) (s : Scheduler)
    → pass.now ≤ now
    → any (is_unfinished now) s.rows ≡ true
    → any (is_unfinished now) (recover pass s).rows ≡ true
unfolding recover_stale
recover-unfinished pass now s le left = elim (Bool-cases pass.fails) [
  | inl e ↦ rw e left
  | inr e ↦ rw e (
      any-update (is_unfinished now) (is_unfinished now) (is_stale pass.locked)
        (recover_row pass.now) s.rows (λ r. recover_row-unfinished pass.now now pass.locked r le)
        left)
]

-- What a start finds that nothing disturbs, and what the loop then does first.
pub record IsResumed (passes : ℕ → Pass) (began : Bool) (s : Scheduler) : Type 0 where
  pub starts : began ≡ true
  pub nothing_active : s.active ≡ []
  pub nothing_held : count (λ (r : TaskRow). is_held r.task.status) s.rows ≡ 0
  pub resumes : 1 ≤ length (filled_reads passes s).read_active

start-IsResumed :
    (at now : ℕ) (passes : ℕ → Pass) (s : Scheduler)
    → s.active ≡ []
    → 1 ≤ s.limits.read_concurrency
    → is_empty (strip s.limits.worker_id) || ltb 128 (length (strip s.limits.worker_id)) ≡ false
    → at ≤ now
    → passes 0 ≡ calm now
    → any (is_unfinished now) s.rows ≡ true
    → IsResumed passes (start (calm at) s).0 (start (calm at) s).1
unfolding start filled_reads count_owners recover_stale
start-IsResumed at now passes s quiet room valid after first left =
    let free =
      any-update (is_unfinished now) (reads_free now) (is_stale unlocked) (recover_row at) s.rows
        (λ r. recover_row-free at now r after) left in
    record {
      starts = refl;
      nothing_active = quiet;
      nothing_held = (recover_stale_frees at unlocked s.rows).0 ∙ held-unlocked s.rows;
      resumes = rw quiet (
          fill-first (s.limits.read_concurrency - 0) now passes
            (record (recover (calm at) s) { active = []; closing = false; started = true })
            (omega (arith, room)) valid first free);
    }

-- The rows that the recovery of aclose finds.
abbrev pub rows_at_close : Pass → Pass → Pass → Scheduler → Rows
rows_at_close loop operations recovery s = recovery.others (operations.others (loop.others s.rows))

-- A scheduler that was closed and has started again.
abbrev pub restarted : Pass → Pass → Pass → ℕ → Scheduler → Bool × Scheduler
restarted loop operations recovery at s = start (calm at) (aclose loop operations recovery s)

-- A started scheduler, whose limit of reads is positive and whose worker has a name that claim_next
-- accepts, is closed, whether the recovery in that fails or not, and is started again where nothing
-- fails and nothing is locked. When the recovery of the close begins, some reading task is held
-- without a request to cancel it, or waits and is due at the first claim. That claim is not before
-- either recovery and meets no failure, no lock and no other call. Then the start succeeds, nothing
-- is active after it, no task is held by a worker, and the first filling of the capacity takes a task.
pub restart-IsResumed :
    (loop operations recovery : Pass) (at now : ℕ) (passes : ℕ → Pass) (s : Scheduler)
    → s.started ≡ true
    → 1 ≤ s.limits.read_concurrency
    → is_empty (strip s.limits.worker_id) || ltb 128 (length (strip s.limits.worker_id)) ≡ false
    → recovery.now ≤ now
    → at ≤ now
    → passes 0 ≡ calm now
    → any (is_unfinished now) (rows_at_close loop operations recovery s) ≡ true
    → IsResumed passes
        (restarted loop operations recovery at s).0
        (restarted loop operations recovery at s).1
unfolding aclose
restart-IsResumed loop operations recovery at now passes s e room valid before after first left =
    let met = record (meet loop s) {
      active = pop_all recovery.ended [];
      closing = true;
      rows = rows_at_close loop operations recovery s;
    } in
    let kept = recover-unfinished recovery now met before left in
    let quiet = pop_all-nil recovery.ended in
    elim (Bool-cases recovery.fails) [
      | inl f ↦
          rw (e, f)
            (start-IsResumed at now passes (record met { started = false }) quiet room valid after
              first left)
      | inr f ↦
          let later : any (is_unfinished now)
                (recover_stale recovery.now recovery.locked met.rows).1
              ≡ true =
            (rw f at kept) in
          rw (e, f)
            (start-IsResumed at now passes
              (record met {
                rows = (recover_stale recovery.now recovery.locked met.rows).1;
                started = false;
              })
              quiet room valid after first later)
    ]
