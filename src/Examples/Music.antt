-- ===== src/Examples/Music.antt =====
-- The music theorems at a channel with one or two tracks.
use cywl_oopz.Prelude.{
  ◌+◌, ◌≤◌, ◌≡◌, refl, true, false, List, [], ◌∷◌, ◌++◌, some, none, ok, length, arith,
}
use cywl_oopz.Prelude.Text.{Text, codes}
use cywl_oopz.Prelude.Dict.{get, put}
use cywl_oopz.Music.Models.{
  VoiceChannelKey, MusicTrack, MusicSourceKind, QueuedTrack, PlaybackState, shuffle, off,
  EnqueueResult, music_voice_busy, MusicPlaybackEndReason,
}
use cywl_oopz.Music.Session.{MusicSession, new_session, take_next}
use cywl_oopz.Music.Requests.{
  Surroundings, answered, is_running, current_count, enqueue_known, enqueue, evict,
}
use cywl_oopz.Music.Prepare.{Answers, Run, Meanwhile, playable}
use cywl_oopz.Music.Worker.{Round, running, ended, run}
use cywl_oopz.Music.Consistency.{IsConsistent, Leaves}
use cywl_oopz.Music.Interleaving.{Requests, Request, Requests-Leaves}
use cywl_oopz.Music.Rounds.{Rests, run-IsResting}
use cywl_oopz.Music.Resting.{OnlyRequests, IsFair, IsResting}
use cywl_oopz.Music.Calm.{IsCalm, SameQueue-refl}
use cywl_oopz.Music.Drain.{IsDraining, run_ends}
use cywl_oopz.Music.Shuffle.{take_next-shuffle}
use cywl_oopz.Music.Enqueue.{enqueue-idempotent, enqueue-appends, enqueue-err}

abbrev pub channel : VoiceChannelKey
channel = record { area_id = codes "hall"; channel_id = codes "stage" }

abbrev pub song : MusicTrack
song = record {
  source = MusicSourceKind.netease;
  source_id = codes "7";
  title = codes "song";
  artists = [];
  duration_ms = none;
}

abbrev pub first : QueuedTrack
first = record { track = song; requested_by = codes "ann"; id = 1 }

abbrev pub second : QueuedTrack
second = record { track = song; requested_by = codes "bob"; id = 2 }

abbrev key : Text
key = codes "k"

-- The backend grants the voice.
abbrev pub granting : Surroundings
granting = record { closing = false; acquire = answered true; closing_later = false; worker_id = 5 }

-- The backend refuses it.
abbrev refusing : Surroundings
refusing = record granting { acquire = answered false }

abbrev reply : EnqueueResult
reply = record { voice_channel = channel; item = first; position = 1; started_worker = true }

abbrev pub playing_first : MusicSession
playing_first = record new_session {
  queue = first ∷ [];
  revision = 1;
  state = PlaybackState.waiting;
  voice_reserved = true;
  worker = some (record { id = 5; done = false });
  idempotent_enqueues = (key, reply) ∷ [];
}

first_enqueued : enqueue 9 granting channel key first new_session ≡ (ok reply, playing_first)
unfolding enqueue evict put get
first_enqueued = refl

enqueue-idempotent_example :
    enqueue 1 refusing channel key second playing_first ≡ (ok reply, playing_first)
enqueue-idempotent_example =
    enqueue-idempotent 9 granting channel key first new_session playing_first reply 1 refusing
      channel second refl first_enqueued

enqueue-appends_example :
    (playing_first.queue ≡ [] ++ first ∷ [])
    × (reply.position ≡ length playing_first.queue + current_count playing_first)
    × (length playing_first.queue + current_count playing_first ≤ 9)
    × (playing_first.voice_reserved ≡ true)
    × (is_running playing_first.worker ≡ true)
unfolding enqueue_known get
enqueue-appends_example =
    enqueue-appends 9 granting channel key first new_session playing_first reply refl first_enqueued

enqueue-err_example : new_session ≡ new_session
unfolding enqueue get
enqueue-err_example =
    enqueue-err 9 refusing channel key first new_session new_session music_voice_busy refl refl

abbrev shuffled : MusicSession
shuffled = record new_session {
  queue = first ∷ second ∷ [];
  policy = record { order = shuffle; repeat = off };
}

take_next-shuffle_example :
    take_next (λ n. 1) shuffled ≡ some (second, record shuffled { queue = first ∷ [] })
take_next-shuffle_example =
    take_next-shuffle (λ n. 1) shuffled (first ∷ []) [] second refl refl refl

playing_first-IsConsistent : IsConsistent playing_first
playing_first-IsConsistent = record {
  policy_valid = refl;
  skip_current = refl;
  retain_skip = refl;
  remembered = omega arith;
  playback_current = refl;
}

Requests-Leaves_example :
    Leaves playing_first (enqueue 9 granting channel [] second playing_first).1
Requests-Leaves_example =
    Requests-Leaves playing_first (enqueue 9 granting channel [] second playing_first).1
      (Requests.next Requests.here (Request.enqueues 9 granting channel [] second refl))
      playing_first-IsConsistent

abbrev pub nothing : Meanwhile
nothing s = s

abbrev pub plays : Answers
plays = record {
  resolve_id = 1;
  while_resolving = nothing;
  resolved = playable;
  while_starting = nothing;
  started = ok 3;
  stopped = ok tt;
  while_locking = nothing;
  while_playing = nothing;
  finished = ok (record { end_reason = MusicPlaybackEndReason.finished; duration_ms = none });
  while_recovering = nothing;
  reacquired = answered true;
}

abbrev plain_round : Round
plain_round = record {
  rng = λ n. 0;
  returns = λ n. true;
  answers = plays;
  while_disposing = nothing;
  while_idle = nothing;
}

-- While the track plays, somebody asks for another one.
abbrev another : Meanwhile
another s = (enqueue 9 granting channel [] second s).1

abbrev busy_round : Round
busy_round = record plain_round { answers = record plays { while_playing = another } }

quiet : OnlyRequests nothing
quiet s = Requests.here

busy_round-IsFair : IsFair busy_round
busy_round-IsFair = record {
  resolving = quiet;
  starting = quiet;
  locking = quiet;
  playing = λ s. Requests.next Requests.here (Request.enqueues 9 granting channel [] second refl);
  recovering = quiet;
  disposing = quiet;
  idle = quiet;
}

plain_round-IsCalm : IsCalm plain_round
plain_round-IsCalm = record {
  resolving = SameQueue-refl;
  starting = SameQueue-refl;
  locking = SameQueue-refl;
  playing = SameQueue-refl;
  recovering = SameQueue-refl;
  disposing = SameQueue-refl;
  idle = SameQueue-refl;
}

abbrev started : Run
started = record { session = playing_first; backend_retries = []; media_retries = [] }

playing_first-IsResting : IsResting playing_first
playing_first-IsResting = record {
  consistent = playing_first-IsConsistent;
  no_current = refl;
  no_playback = refl;
}

run-IsResting_example : Rests (run 5 (busy_round ∷ []) (running started))
run-IsResting_example =
    run-IsResting 5 (busy_round ∷ []) (running started) (busy_round-IsFair, tt)
      playing_first-IsResting

started-IsDraining : IsDraining started
started-IsDraining = record { repeat_off = refl; distinct = λ i. ground arith }

abbrev four_rounds : List Round
four_rounds = plain_round ∷ plain_round ∷ plain_round ∷ plain_round ∷ []

run_ends_example : (s : MusicSession) × (run 5 four_rounds (running started) ≡ ended s)
run_ends_example =
    run_ends 5 four_rounds started
      (plain_round-IsCalm, (plain_round-IsCalm, (plain_round-IsCalm, (plain_round-IsCalm, tt))))
      started-IsDraining (omega arith)
