-- ===== src/Examples/Delegation.antt =====
-- The theorems on delegated tasks at a few tasks of two people.
use cywl_oopz.Prelude.{
  inl, ℕ, ◌+◌, ◌<◌, nat_beq, ◌≡◌, refl, Bool, false, List, [], ◌∷◌, Option, none, some, ok, arith,
  count, length, nat_eq, list_eq,
}
use cywl_oopz.Prelude.Text.{codes, strip}
use cywl_oopz.Delegation.Models.{
  DelegatedResultStyle, read_parallel, mutation_serial, DelegatedTaskSubmission, DelegatedAgentTask,
  TaskRow, succeeded, is_held,
}
use cywl_oopz.Delegation.Rows.{Rows, claim_next, claim_row}
use cywl_oopz.Delegation.Notices.{recover_stale}
use cywl_oopz.Delegation.Submissions.{VoiceSession, submit, new_row, last_sequence, get_for_owner}
use cywl_oopz.Delegation.Calls.{
  Call, apply, run, submits, claims, completes, claims_notices, presents, recovers, requests_cancel,
}
use cywl_oopz.Delegation.Lifecycle.{Holds, IsValid, Step}
use cywl_oopz.Delegation.Steps.{apply-Step}
use cywl_oopz.Delegation.Runs.{run-IsSettled, IsSettled}
use cywl_oopz.Delegation.Numbering.{submit_again, get_for_owner-submit}
use cywl_oopz.Delegation.Claims.{IsAnswer, is_free, claim_next-IsAnswer, recover_stale_frees}

abbrev voice : VoiceSession
voice = record {
  id = 7;
  owner_person_id = codes "ann";
  area_id = codes "hall";
  voice_channel_id = codes "v";
  text_channel_id = codes "t";
}

abbrev pub lookup : DelegatedTaskSubmission
lookup = record {
  owner_person_id = codes "ann";
  area_id = codes "hall";
  text_channel_id = codes "t";
  voice_channel_id = codes "v";
  origin_voice_session_id = 7;
  provider_call_id = codes "c1";
  objective = codes "look";
  result_style = DelegatedResultStyle.brief;
  lane = read_parallel;
  conflict_key = [];
  agent_model_id = 3;
  allowed_tool_names = [];
}

abbrev pub change : DelegatedTaskSubmission
change = record lookup { provider_call_id = codes "c2"; lane = mutation_serial }

abbrev unlocked : ℕ → Bool
unlocked id = false

-- Ann has both done, is told of the first, and cancels the second.
abbrev first_calls : List Call
first_calls =
    submits (voice ∷ []) 1 100 lookup
    ∷ submits (voice ∷ []) 2 101 change
    ∷ claims 3 unlocked (codes "w") (read_parallel ∷ []) []
    ∷ completes 4 100 (codes "w") (codes "done") (codes "all done") none none
    ∷ []

abbrev later_calls : List Call
later_calls =
    claims_notices unlocked 7 5
    ∷ presents 5 (100 ∷ [])
    ∷ claims 6 unlocked (codes "w") (mutation_serial ∷ []) []
    ∷ requests_cancel 7 101 (codes "ann")
    ∷ recovers 8 unlocked
    ∷ []

waiting : Rows
waiting = new_row 1 100 1 lookup ∷ []

waiting-IsValid : IsValid waiting
unfolding waiting
waiting-IsValid = record { distinct = λ i. ground arith; sound = (refl, tt) }

apply-Step_example :
    Step waiting (apply (claims 3 unlocked (codes "w") (read_parallel ∷ []) []) waiting)
apply-Step_example =
    apply-Step waiting waiting-IsValid (claims 3 unlocked (codes "w") (read_parallel ∷ []) [])

-- The first task is over.
abbrev over : TaskRow
over = record (new_row 1 100 1 lookup) {
  task = record (new_row 1 100 1 lookup).task { status = succeeded; finished_at = some 4 };
}

over-IsValid : IsValid (over ∷ [])
over-IsValid = record { distinct = λ i. ground arith; sound = (refl, tt) }

run-IsSettled_example : (s : TaskRow) × Holds s (run later_calls (over ∷ [])) × IsSettled over s
run-IsSettled_example = run-IsSettled later_calls (over ∷ []) over over-IsValid (inl refl) refl

submit_again_example :
    submit [] 9 200 lookup (new_row 1 100 1 lookup ∷ [])
    ≡ ok ((new_row 1 100 1 lookup).task, new_row 1 100 1 lookup ∷ [])
unfolding submit
submit_again_example =
    submit_again (voice ∷ []) [] 1 9 100 200 lookup (new_row 1 100 1 lookup).task []
      (new_row 1 100 1 lookup ∷ []) refl

get_for_owner-submit_example :
    (get_for_owner
        (record { task_id = none; origin_voice_session_id = some 7; session_sequence = some 2 })
        (codes "ann")
        (new_row 1 100 1 lookup ∷ new_row 2 101 2 change ∷ [])
      ≡ ok (some (new_row 2 101 2 change).task))
    × (last_sequence 7 (new_row 1 100 1 lookup ∷ []) < 2)
unfolding submit last_sequence
get_for_owner-submit_example =
    get_for_owner-submit (voice ∷ []) 2 101 change (new_row 2 101 2 change).task
      (new_row 1 100 1 lookup ∷ []) (new_row 1 100 1 lookup ∷ new_row 2 101 2 change ∷ []) refl refl

-- Bob's task is older, but Bob is excluded.
abbrev bobs : DelegatedTaskSubmission
bobs = record lookup { owner_person_id = codes "bob"; origin_voice_session_id = 8 }

abbrev queue : Rows
queue = new_row 1 99 1 bobs ∷ new_row 5 102 3 lookup ∷ new_row 2 100 1 lookup ∷ []

claim_next-IsAnswer_example :
    (answer : Option DelegatedAgentTask) × (rows' : Rows) × (claim_next 6 unlocked
        (codes " w ")
        (read_parallel ∷ [])
        (codes "bob" ∷ [])
        queue
      ≡ ok (answer, rows'))
    × IsAnswer
        (is_free 6 unlocked (read_parallel ∷ []) (codes "bob" ∷ []))
        6
        (strip (codes " w "))
        queue
        answer
        rows'
unfolding strip
claim_next-IsAnswer_example =
    claim_next-IsAnswer 6 unlocked (codes " w ") (read_parallel ∷ []) (codes "bob" ∷ []) queue refl

abbrev is_held_row : TaskRow → Bool
is_held_row r = is_held r.task.status

-- Two tasks are held, and one of them is locked.
abbrev held_rows : Rows
held_rows =
    claim_row 3 (codes "w") (new_row 1 100 1 lookup)
    ∷ claim_row 3 (codes "w") (new_row 2 101 2 change)
    ∷ []

abbrev second_locked : ℕ → Bool
second_locked id = nat_beq id 101

recover_stale_frees_example :
    (count is_held_row (recover_stale 9 second_locked held_rows).1 ≡ 1)
    × ((recover_stale 9 second_locked held_rows).0.requeued
          + (recover_stale 9 second_locked held_rows).0.cancelled
          + (recover_stale 9 second_locked held_rows).0.interrupted
          + count is_held_row (recover_stale 9 second_locked held_rows).1
        ≡ 2)
    × (length (recover_stale 9 second_locked held_rows).0.task_ids
        ≡ (recover_stale 9 second_locked held_rows).0.requeued
          + (recover_stale 9 second_locked held_rows).0.cancelled
          + (recover_stale 9 second_locked held_rows).0.interrupted)
recover_stale_frees_example = recover_stale_frees 9 second_locked held_rows
