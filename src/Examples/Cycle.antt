-- ===== src/Examples/Cycle.antt =====
-- The repeated cycle of two tracks, at its end.
use cywl_oopz.Prelude.{◌≡◌, refl, true, [], ◌∷◌}
use cywl_oopz.Music.Models.{sequential, all}
use cywl_oopz.Music.Session.{MusicSession, new_session, take_next, take_from}
use cywl_oopz.Music.Session.Deque.{popleft}
use cywl_oopz.Music.Prepare.{Run, new_attempt}
use cywl_oopz.Music.Worker.{loaded, take_or_release, rebuild_cycle, finish_attempt}
use cywl_oopz.Music.Cycle.{cycle_of, cycle_of-round}
use cywl_oopz.Examples.Music.{first, second}

-- Both tracks have been played.
abbrev played : MusicSession
played = record new_session {
  cycle_history = first ∷ second ∷ [];
  policy = record { order = sequential; repeat = all };
  voice_reserved = true;
}

abbrev taken_first : MusicSession
taken_first = loaded first (record played { cycle_history = []; queue = second ∷ []; revision = 1 })

abbrev finished_run : Run
finished_run = record { session = taken_first; backend_retries = []; media_retries = [] }

cycle_of-round_example :
    cycle_of (finish_attempt first (record new_attempt { completed = true }) finished_run).session
    ≡ first ∷ second ∷ []
unfolding take_or_release rebuild_cycle take_next take_from popleft
cycle_of-round_example =
    cycle_of-round 5 (λ n. 0) (λ n. true) played taken_first first
      (record new_attempt { completed = true }) finished_run refl refl refl refl refl refl
