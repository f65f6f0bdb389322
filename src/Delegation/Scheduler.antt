-- ===== src/Delegation/Scheduler.antt =====
-- features/agent/delegation/scheduler.py. A section runs from one await to the next; an await of the
-- repository meets what other tasks do before its transaction (a Pass). An operation is the number
-- of its asyncio task. The reconciliation interval, log lines and the event of the wakeup are left
-- out.
use cywl_oopz.Prelude.{
  ℕ, zero, suc, ◌+◌, ◌-◌, Bool, true, false, not, ◌||◌, List, [], ◌∷◌, ◌++◌, Option, none, some,
  if◌then◌else◌, ltb, leb, nat_beq, length, any, option_or, Result, ok, err, ◌>>◌, raise_if, nat_eq,
  list_eq,
}
use cywl_oopz.Prelude.Text.{Text}
use cywl_oopz.Prelude.Dict.{Dict, get, put, pop}
use cywl_oopz.Commands.Parsing.{is_empty}
use cywl_oopz.Delegation.Models.{
  DelegatedTaskLane, read_parallel, mutation_serial, is_read, DelegatedAgentTask, TaskError,
  value_error, database_error,
}
use cywl_oopz.Delegation.Rows.{Rows, claim_next}

pub data CancelReason : Type 0 where
  no_reason user shutdown : CancelReason

abbrev pub is_user : CancelReason → Bool
is_user CancelReason.user = true
is_user _ = false

-- _ActiveTask
pub record ActiveTask : Type 0 where
  pub envelope : DelegatedAgentTask
  pub operation : ℕ
  pub cancel_reason : CancelReason

abbrev pub Active : Type 0
Active = Dict ℕ ActiveTask

pub record Limits : Type 0 where
  pub read_concurrency : ℕ
  pub per_user_concurrency : ℕ
  pub worker_id : Text

-- DelegatedTaskScheduler: what it keeps, and the rows of its repository.
pub record Scheduler : Type 0 where
  pub limits : Limits
  pub active : Active
  pub rows : Rows
  pub operations : ℕ
  pub closing : Bool
  pub started : Bool

-- DelegatedTaskScheduler.__init__; the default worker is drawn with uuid4.
unfoldable pub make_scheduler : ℕ → ℕ → Option Text → Text → Rows → Result TaskError Scheduler
make_scheduler read_concurrency per_user_concurrency worker_id drawn rows = do
  raise_if (nat_beq read_concurrency 0 || nat_beq per_user_concurrency 0) value_error
  raise_if (ltb read_concurrency per_user_concurrency) value_error
  let worker = option_or worker_id [] in
      ok (record {
        limits = record {
          read_concurrency = read_concurrency;
          per_user_concurrency = per_user_concurrency;
          worker_id = if is_empty worker then drawn else worker;
        };
        active = [];
        rows = rows;
        operations = 0;
        closing = false;
        started = false;
      })

-- What an await of the repository meets: the operations that end and the calls that others make
-- before the transaction, whether the database fails, the time, and the rows that others lock.
pub record Pass : Type 0 where
  pub ended : List ℕ
  pub others : Rows → Rows
  pub fails : Bool
  pub now : ℕ
  pub locked : ℕ → Bool

abbrev pub pop_all : List ℕ → Active → Active
pop_all [] active = active
pop_all (id ∷ ids) active = pop_all ids (pop active id)

abbrev pub meet : Pass → Scheduler → Scheduler
meet pass s = record s { active = pop_all pass.ended s.active; rows = pass.others s.rows }

-- _start_claimed
unfoldable pub start_claimed : DelegatedAgentTask → Scheduler → Scheduler
unfolding put
start_claimed task s = record s {
  active = put s.active task.id (record {
    envelope = task;
    operation = s.operations;
    cancel_reason = CancelReason.no_reason;
  });
  operations = s.operations + 1;
}

-- The call of claim_next.
unfoldable pub claim :
    Pass
    → Scheduler
    → List DelegatedTaskLane
    → List Text
    → Result TaskError (Option DelegatedAgentTask × Rows)
unfolding claim_next
claim pass s lanes excluded =
    if pass.fails
    then err database_error
    else claim_next pass.now pass.locked s.limits.worker_id lanes excluded s.rows

-- How a filling ends: with the limit reached, with no task left to claim, or with an error.
pub data Stop : Type 0 where
  full idle raised : Stop

abbrev pub reads_of : Active → List DelegatedAgentTask
reads_of [] = []
reads_of ((id, a) ∷ active) =
    if is_read a.envelope.request.lane then a.envelope ∷ reads_of active else reads_of active

-- Counter(item.envelope.owner_person_id for item in ...)
unfoldable pub add_owner : Dict Text ℕ → Text → Dict Text ℕ
unfolding get put
add_owner counts owner = put counts owner (option_or (get counts owner) 0 + 1)

unfoldable pub count_owners : List DelegatedAgentTask → Dict Text ℕ
unfolding add_owner
count_owners [] = []
count_owners (t ∷ tasks) = add_owner (count_owners tasks) t.request.owner_person_id

-- The owners whose count has reached a limit.
abbrev pub owners_at : ℕ → Dict Text ℕ → List Text
owners_at limit [] = []
owners_at limit ((owner, n) ∷ counts) =
    if leb limit n then owner ∷ owners_at limit counts else owners_at limit counts

-- The loop of _fill_capacity with its local variables: the reads it knows of, the counts of their
-- owners, and how many claims it has made.
pub record Filling : Type 0 where
  pub stop : Stop
  pub scheduler : Scheduler
  pub read_active : List DelegatedAgentTask
  pub owner_counts : Dict Text ℕ
  pub claims : ℕ

abbrev fill_answered :
    Filling
    → (DelegatedAgentTask → Scheduler → Filling)
    → Result TaskError (Option DelegatedAgentTask × Rows)
    → Filling
fill_answered f next (err e) = record f { stop = Stop.raised }
fill_answered f next (ok (none, rows)) = record f {
  stop = Stop.idle;
  scheduler = record f.scheduler { rows = rows };
}
fill_answered f next (ok (some task, rows)) = next task (record f.scheduler { rows = rows })

-- `room` is what the limit leaves: read_concurrency less the reads that the loop knows of.
unfoldable pub fill_reads :
    ℕ → (ℕ → Pass) → ℕ → List DelegatedAgentTask → Dict Text ℕ → Scheduler → Filling
unfolding claim start_claimed add_owner
fill_reads zero passes k read_active owner_counts s = record {
  stop = Stop.full;
  scheduler = s;
  read_active = read_active;
  owner_counts = owner_counts;
  claims = k;
}
fill_reads (suc room) passes k read_active owner_counts s =
    let met = meet (passes k) s in
    let excluded = owners_at s.limits.per_user_concurrency owner_counts in
    fill_answered
      (record {
        stop = Stop.idle;
        scheduler = met;
        read_active = read_active;
        owner_counts = owner_counts;
        claims = k + 1;
      })
      (λ task t.
        fill_reads room passes (k + 1) (read_active ++ task ∷ [])
          (add_owner owner_counts task.request.owner_person_id) (start_claimed task t))
      (claim (passes k) met (read_parallel ∷ []) excluded)

abbrev pub is_mutation : ActiveTask → Bool
is_mutation a = not (is_read a.envelope.request.lane)

abbrev pub has_mutation : Active → Bool
has_mutation active = any (λ e. is_mutation e.1) active

abbrev mutation_answered :
    Scheduler → Result TaskError (Option DelegatedAgentTask × Rows) → Bool × Scheduler
mutation_answered s (err e) = (false, s)
mutation_answered s (ok (none, rows)) = (true, record s { rows = rows })
mutation_answered s (ok (some task, rows)) = (true, start_claimed task (record s { rows = rows }))

unfoldable pub fill_mutation : Pass → Scheduler → Bool × Scheduler
unfolding claim start_claimed
fill_mutation pass s =
    if has_mutation s.active
    then (true, s)
    else let met = meet pass s in mutation_answered met (claim pass met (mutation_serial ∷ []) [])

abbrev pub is_raised : Stop → Bool
is_raised Stop.raised = true
is_raised _ = false

unfoldable pub filled_reads : (ℕ → Pass) → Scheduler → Filling
unfolding fill_reads count_owners
filled_reads passes s =
    let reads = reads_of s.active in
    fill_reads (s.limits.read_concurrency - length reads) passes 0 reads (count_owners reads) s

-- _fill_capacity: whether it ended without an error, and what it leaves.
unfoldable pub fill_capacity : (ℕ → Pass) → Scheduler → Bool × Scheduler
unfolding filled_reads fill_mutation
fill_capacity passes s =
    let f = filled_reads passes s in
    if is_raised f.stop then (false, f.scheduler) else fill_mutation (passes f.claims) f.scheduler
