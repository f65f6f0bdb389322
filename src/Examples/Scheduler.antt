-- ===== src/Examples/Scheduler.antt =====
-- The theorems on the scheduler of delegated tasks, with a limit of two tasks that read and one for
-- each owner.
use cywl_oopz.Prelude.{
  arith, ℕ, ◌+◌, ◌≡◌, ◌⊎◌, refl, true, false, List, [], ◌∷◌, some, any, length, nat_eq, list_eq,
}
use cywl_oopz.Prelude.Text.{codes, strip}
use cywl_oopz.Delegation.Models.{mutation_serial, TaskRow}
use cywl_oopz.Delegation.Rows.{Rows}
use cywl_oopz.Delegation.Submissions.{new_row}
use cywl_oopz.Delegation.Claims.{is_free}
use cywl_oopz.Delegation.Scheduler.{
  Scheduler, Pass, make_scheduler, fill_capacity, filled_reads, has_mutation,
}
use cywl_oopz.Delegation.Operations.{Leaving}
use cywl_oopz.Delegation.Limits.{IsBounded}
use cywl_oopz.Delegation.Restart.{calm, restarted, IsResumed, restart-IsResumed}
use cywl_oopz.Delegation.Models.{running}
use cywl_oopz.Delegation.Work.{IsIdle, fill_capacity_works}
use cywl_oopz.Delegation.Scheduling.{
  Event, fills, cancels, leaves, starts, closes, handle_all, handle_all-IsBounded,
  make_scheduler-IsRunnable,
}
use cywl_oopz.Examples.Delegation.{lookup, change}

abbrev rows : Rows
rows =
    new_row 1 100 1 lookup
    ∷ new_row 2 101 1 (record lookup { owner_person_id = codes "bob" })
    ∷ new_row 3 102 2 lookup
    ∷ new_row 4 103 3 change
    ∷ []

abbrev scheduler : Scheduler
scheduler = record {
  limits = record { read_concurrency = 2; per_user_concurrency = 1; worker_id = codes "w" };
  active = [];
  rows = rows;
  operations = 0;
  closing = false;
  started = false;
}

-- Nothing happens in between.
abbrev quiet : ℕ → Pass
quiet k = record {
  ended = [];
  others = λ rows. rows;
  fails = false;
  now = 9 + k;
  locked = λ id. false;
}

abbrev events : List Event
events =
    starts (quiet 0)
    ∷ fills quiet
    ∷ leaves Leaving.returns (quiet 0) (quiet 0) (new_row 1 100 1 lookup).task
    ∷ cancels quiet (101 ∷ [])
    ∷ fills quiet
    ∷ closes (quiet 0) (quiet 1) (quiet 2)
    ∷ []

handle_all-IsBounded_example :
    IsBounded (handle_all events scheduler).limits (handle_all events scheduler).active
unfolding make_scheduler
handle_all-IsBounded_example =
    handle_all-IsBounded 2 1 (some (codes "w")) (codes "drawn") rows scheduler events refl

nothing_active : IsBounded scheduler.limits scheduler.active
unfolding make_scheduler
nothing_active =
    (make_scheduler-IsRunnable 2 1 (some (codes "w")) (codes "drawn") rows scheduler refl).bounded

fill_capacity_works_example :
    ((length (filled_reads quiet scheduler).read_active ≡ 2)
      ⊎ IsIdle quiet scheduler.limits
          (filled_reads quiet scheduler).read_active
          (filled_reads quiet scheduler).scheduler.rows)
    × ((has_mutation (fill_capacity quiet scheduler).1.active ≡ true)
        ⊎ (any
              (is_free
                (quiet (filled_reads quiet scheduler).claims).now
                (quiet (filled_reads quiet scheduler).claims).locked
                (mutation_serial ∷ [])
                [])
              (fill_capacity quiet scheduler).1.rows
            ≡ false))
unfolding fill_capacity strip
fill_capacity_works_example = fill_capacity_works quiet scheduler nothing_active refl

-- One task is run when the scheduler is closed, and the recovery of the close fails.
abbrev running_row : TaskRow
running_row = record (new_row 1 100 1 lookup) {
  worker_id = codes "w";
  task = record (new_row 1 100 1 lookup).task { status = running };
}

abbrev at_work : Scheduler
at_work = record scheduler { rows = running_row ∷ new_row 4 103 3 change ∷ []; started = true }

abbrev failing : Pass
failing = record (quiet 2) { fails = true }

restart-IsResumed_example :
    IsResumed
      (λ k. calm (20 + k))
      (restarted (quiet 0) (quiet 1) failing 15 at_work).0
      (restarted (quiet 0) (quiet 1) failing 15 at_work).1
unfolding strip
restart-IsResumed_example =
    restart-IsResumed (quiet 0) (quiet 1) failing 15 20 (λ k. calm (20 + k)) at_work refl
      (omega arith) refl (omega arith) (omega arith) refl refl
