-- ===== src/Examples/Skipping.antt =====
-- The theorems on skipped tracks and given up sessions at a channel with two tracks.
use cywl_oopz.Prelude.{ℕ, ◌≡◌, refl, Bool, true, false, [], ◌∷◌, ◌++◌, some, none}
use cywl_oopz.Music.Models.{PlaybackState, sequential, all}
use cywl_oopz.Music.Session.{MusicSession, new_session}
use cywl_oopz.Music.Controls.{skip, clear}
use cywl_oopz.Music.Prepare.{Run, new_attempt, retries}
use cywl_oopz.Music.Worker.{finish_attempt, close_session}
use cywl_oopz.Music.Skipping.{finish_attempt-skip, finish_attempt-clear}
use cywl_oopz.Music.Closing.{IsGivenUp, close_session-IsGivenUp}
use cywl_oopz.Examples.Music.{channel, first, second, granting}

-- The first track plays, everything is repeated, and the second is queued.
abbrev repeating : MusicSession
repeating = record new_session {
  queue = second ∷ [];
  current = some first;
  state = PlaybackState.playing;
  policy = record { order = sequential; repeat = all };
  voice_reserved = true;
}

abbrev run_of : MusicSession → Run
run_of s = record { session = s; backend_retries = (1, 1) ∷ []; media_retries = [] }

finish_attempt-skip_example :
    let t = finish_attempt first new_attempt (run_of (skip repeating).1) in
    (t.session.queue ≡ second ∷ [])
    × (t.session.cycle_history ≡ [] ++ first ∷ [])
    × (t.session.current ≡ none)
    × (retries t.backend_retries first ≡ 0)
    × (retries t.media_retries first ≡ 0)
finish_attempt-skip_example =
    finish_attempt-skip first new_attempt (run_of (skip repeating).1) repeating refl refl

abbrev skipped : MusicSession
skipped = record repeating { skip_requested = true; retain_skipped_for_cycle = true }

finish_attempt-clear_example :
    (finish_attempt first new_attempt
      (run_of (clear granting channel skipped).1)).session.cycle_history
    ≡ first ∷ []
finish_attempt-clear_example =
    finish_attempt-clear granting channel first new_attempt
      (run_of (clear granting channel skipped).1) skipped refl refl refl

-- No call of voice.release returns.
abbrev never : ℕ → Bool
never n = false

close_session-IsGivenUp_example : IsGivenUp (close_session 5 never repeating)
close_session-IsGivenUp_example = close_session-IsGivenUp 5 never repeating

abbrev drained_session : MusicSession
drained_session = record repeating { queue = []; current = none }
