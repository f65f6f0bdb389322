-- ===== src/Music/Requests.antt =====
-- The requests of features/music/service.py on one channel's session. Each function is one section
-- under session.lock; what the section awaits, and what other tasks set meanwhile, is an argument.
-- A request that raises returns the session too, with what it had written.
use cywl_oopz.Prelude.{
  ℕ, ◌+◌, Bool, true, false, not, [], ◌∷◌, ◌++◌, Option, none, some, if◌then◌else◌, ltb, leb,
  length, is_some, Result, ok, err, nat_eq, list_eq,
}
use cywl_oopz.Prelude.Text.{Text}
use cywl_oopz.Prelude.Dict.{Dict, get, put}
use cywl_oopz.Music.Models.{
  VoiceChannelKey, QueuedTrack, PlaybackState, EnqueueResult, MusicQueueSnapshot, MusicError,
  music_queue_full, music_voice_busy, music_playback, service_closing,
}
use cywl_oopz.Music.Session.{MusicSession, WorkerTask}

-- What voice.acquire does: it raises, or it answers.
pub data Acquire : Type 0 where
  raised : Acquire
  answered : Bool → Acquire

-- What a section meets outside of the session: _closing as _reserve_voice_locked and as
-- _start_worker_locked read it, the backend's answer, and the identity of a new worker.
pub record Surroundings : Type 0 where
  pub closing : Bool
  pub acquire : Acquire
  pub closing_later : Bool
  pub worker_id : ℕ

abbrev pub max_idempotent : ℕ
max_idempotent = 256

-- The truth of a text: `if idempotency_key`.
abbrev pub is_given : Text → Bool
is_given [] = false
is_given (c ∷ s) = true

abbrev pub current_count : MusicSession → ℕ
current_count s = if is_some s.current then 1 else 0

abbrev reserve_answer : Acquire → MusicSession → Result MusicError MusicSession
reserve_answer raised s = err music_playback
reserve_answer (answered acquired) s =
    if acquired then ok (record s { voice_reserved = true }) else err music_voice_busy

-- _reserve_voice_locked. The session is unchanged where it raises.
unfoldable pub reserve_voice : Surroundings → MusicSession → Result MusicError MusicSession
reserve_voice env s =
    if env.closing
    then err service_closing
    else if s.voice_reserved
    then ok s
    else reserve_answer env.acquire s

-- A worker that exists and is not done.
abbrev pub is_running : Option WorkerTask → Bool
is_running none = false
is_running (some w) = not w.done

-- _start_worker_locked
unfoldable pub start_worker : Surroundings → MusicSession → Result MusicError (Bool × MusicSession)
start_worker env s =
    if env.closing_later
    then err service_closing
    else if is_running s.worker
    then ok (false, s)
    else ok (true, record s { worker = some (record { id = env.worker_id; done = false }) })

-- The entry of a key, where a key is given: the first section of _enqueue_from, and the first test
-- of its second.
unfoldable pub enqueue_known : Text → MusicSession → Option EnqueueResult
enqueue_known key s = if is_given key then get s.idempotent_enqueues key else none

-- while len(entries) > 256: entries.popitem(last=False)
unfoldable pub evict : Dict Text EnqueueResult → Dict Text EnqueueResult
evict [] = []
evict (e ∷ entries) =
    if ltb max_idempotent (length (e ∷ entries)) then evict entries else e ∷ entries

unfoldable pub remember : Text → EnqueueResult → MusicSession → MusicSession
unfolding evict
remember key result s =
    if is_given key
    then record s { idempotent_enqueues = evict (put s.idempotent_enqueues key result) }
    else s

-- queue.append, revision += 1, and WAITING for a session with no current track.
abbrev pub appended : QueuedTrack → MusicSession → MusicSession
appended item s = record s {
  queue = s.queue ++ item ∷ [];
  revision = s.revision + 1;
  state = if is_some s.current then s.state else PlaybackState.waiting;
}

abbrev enqueue_started :
    VoiceChannelKey
    → Text
    → QueuedTrack
    → MusicSession
    → Result MusicError (Bool × MusicSession)
    → Result MusicError EnqueueResult × MusicSession
enqueue_started channel key item s (err e) = (err e, s)
enqueue_started channel key item s (ok (started, s')) =
    let result : EnqueueResult = record {
      voice_channel = channel;
      item = item;
      position = length s.queue + current_count s;
      started_worker = started;
    } in
    (ok result, remember key result s')

abbrev enqueue_reserved :
    Surroundings
    → VoiceChannelKey
    → Text
    → QueuedTrack
    → MusicSession
    → Result MusicError MusicSession
    → Result MusicError EnqueueResult × MusicSession
enqueue_reserved env channel key item s (err e) = (err e, s)
enqueue_reserved env channel key item s (ok s') =
    enqueue_started channel key item (appended item s') (start_worker env (appended item s'))

unfoldable pub enqueue_new :
    ℕ
    → Surroundings
    → VoiceChannelKey
    → Text
    → QueuedTrack
    → MusicSession
    → Result MusicError EnqueueResult × MusicSession
unfolding reserve_voice start_worker remember
enqueue_new max_queue_length env channel key item s =
    if leb max_queue_length (length s.queue + current_count s)
    then (err music_queue_full, s)
    else enqueue_reserved env channel key item s (reserve_voice env s)

abbrev enqueue_checked :
    Option EnqueueResult
    → Result MusicError EnqueueResult × MusicSession
    → MusicSession
    → Result MusicError EnqueueResult × MusicSession
enqueue_checked none fresh s = fresh
enqueue_checked (some previous) fresh s = (ok previous, s)

-- The second section of _enqueue_from, after the track has been loaded.
unfoldable pub enqueue :
    ℕ
    → Surroundings
    → VoiceChannelKey
    → Text
    → QueuedTrack
    → MusicSession
    → Result MusicError EnqueueResult × MusicSession
unfolding enqueue_new enqueue_known
enqueue max_queue_length env channel key item s =
    enqueue_checked (enqueue_known key s) (enqueue_new max_queue_length env channel key item s) s

-- queue
unfoldable pub snapshot : VoiceChannelKey → MusicSession → MusicQueueSnapshot
snapshot channel s = record {
  voice_channel = channel;
  state = s.state;
  policy = s.policy;
  current = s.current;
  upcoming = s.queue;
  cycle_completed_count = length s.cycle_history;
  revision = s.revision;
  last_failure = s.last_failure;
}
