-- ===== src/Music/Session.antt =====
-- features/music/session.py. A task, a playback handle and a worker are known by a number.
pub mod Deque
use cywl_oopz.Prelude.{
  ℕ, suc, ◌+◌, ◌-◌, ◌%◌, Bool, true, false, ◌&&◌, List, [], ◌∷◌, ◌++◌, Option, none, some,
  if◌then◌else◌, ltb, length, take, drop,
}
use mathlib.Core.Option
use cywl_oopz.Prelude.Text.{Text}
use cywl_oopz.Prelude.Dict.{Dict}
use cywl_oopz.Music.Models.{
  QueuedTrack, PlaybackState, MusicPlaybackPolicy, EnqueueResult, MusicFailure, MusicFailureCode,
  MusicFailureScope, RepeatPolicy, is_shuffle, default_policy, is_one,
}
use Deque.{rotate_left, rotate_right, popleft}

-- The resolve task of a track, and whether it has ended or has been cancelled.
pub record ResolveTask : Type 0 where
  pub id : ℕ
  pub done : Bool
  pub cancelled : Bool

pub record WorkerTask : Type 0 where
  pub id : ℕ
  pub done : Bool

pub record MusicSession : Type 0 where
  pub queue : List QueuedTrack
  pub cycle_history : List QueuedTrack
  pub current : Option QueuedTrack
  pub state : PlaybackState
  pub policy : MusicPlaybackPolicy
  pub revision : ℕ
  pub idempotent_enqueues : Dict Text EnqueueResult
  pub last_failure : Option MusicFailure
  pub playback : Option ℕ
  pub resolve_task : Option ResolveTask
  pub voice_reserved : Bool
  pub worker : Option WorkerTask
  pub skip_requested : Bool
  pub retain_skipped_for_cycle : Bool

abbrev pub new_session : MusicSession
new_session = record {
  queue = [];
  cycle_history = [];
  current = none;
  state = PlaybackState.idle;
  policy = default_policy;
  revision = 0;
  idempotent_enqueues = [];
  last_failure = none;
  playback = none;
  resolve_task = none;
  voice_reserved = false;
  worker = none;
  skip_requested = false;
  retain_skipped_for_cycle = false;
}

-- random.randrange(n), the value that the generator returns for a bound.
abbrev pub Rng : Type 0
Rng = ℕ → ℕ

-- The item that take_next returns and the queue that it leaves; popleft of an empty deque raises.
unfoldable pub take_from :
    Rng → MusicPlaybackPolicy → List QueuedTrack → Option (QueuedTrack × List QueuedTrack)
take_from rng policy queue =
    if is_shuffle policy.order && ltb 1 (length queue)
    then (let index = rng (length queue) in
        Option.map (λ (item, rest). (item, rotate_right index rest))
          (popleft (rotate_left index queue)))
    else popleft queue

-- MusicQueueState.take_next
unfoldable pub take_next : Rng → MusicSession → Option (QueuedTrack × MusicSession)
unfolding take_from
take_next rng s =
    Option.map (λ (item, rest). (item, record s { queue = rest })) (take_from rng s.policy s.queue)

-- MusicQueueState.retain_completed
unfoldable pub retain_completed : QueuedTrack → MusicSession → MusicSession
retain_completed item s =
    if is_one s.policy.repeat
    then record s { queue = item ∷ s.queue }
    else record s { cycle_history = s.cycle_history ++ item ∷ [] }

-- MusicQueueState.record_failure
abbrev pub record_failure :
    Option QueuedTrack
    → MusicFailureCode
    → MusicFailureScope
    → Bool
    → ℕ
    → MusicSession
    → MusicSession
record_failure item code scope recoverable retry_count s = record s {
  last_failure = some (record {
    code = code;
    scope = scope;
    recoverable = recoverable;
    track_id = Option.map (λ i. i.id) item;
    retry_count = retry_count;
  });
}

-- MusicSession.cancel_resolve
abbrev pub cancel_task : ResolveTask → ResolveTask
cancel_task task = if task.done then task else record task { cancelled = true }

abbrev pub cancel_resolve : MusicSession → MusicSession
cancel_resolve s = record s { resolve_task = Option.map cancel_task s.resolve_task }

-- session.revision += 1
abbrev pub bump : MusicSession → MusicSession
bump s = record s { revision = s.revision + 1 }
