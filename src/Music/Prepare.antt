-- ===== src/Music/Prepare.antt =====
-- The start of an attempt: prepare of features/music/track_playback.py and _reacquire_voice of
-- features/music/playback.py. `Meanwhile` is what other tasks do to the session while the worker
-- awaits something; each of their sections holds session.lock.
use cywl_oopz.Prelude.{
  ℕ, Bool, false, Option, none, some, if◌then◌else◌, option_or, Result, ok, err, nat_beq, nat_eq,
}
use cywl_oopz.Prelude.Dict.{Dict, get}
use cywl_oopz.Music.Models.{QueuedTrack, PlaybackState, MusicPlaybackResult}
use cywl_oopz.Music.Session.{MusicSession, ResolveTask, bump}
use cywl_oopz.Music.Requests.{Acquire, answered}

abbrev pub Meanwhile : Type 0
Meanwhile = MusicSession → MusicSession

-- What can be raised in an attempt, as the except clauses tell it apart.
pub data PlaybackException : Type 0 where
  cancelled backend_closed decoder catalog other : PlaybackException

-- What awaiting the resolve task ends in; cancelled_alone is a CancelledError while the worker
-- itself is not being cancelled.
pub data Resolved : Type 0 where
  playable : Resolved
  cancelled_alone : Resolved
  raised : PlaybackException → Resolved

-- What one attempt meets.
pub record Answers : Type 0 where
  pub resolve_id : ℕ
  pub while_resolving : Meanwhile
  pub resolved : Resolved
  pub while_starting : Meanwhile
  pub started : Result PlaybackException ℕ
  pub stopped : Result PlaybackException (Unit {0})
  pub while_locking : Meanwhile
  pub while_playing : Meanwhile
  pub finished : Result PlaybackException MusicPlaybackResult
  pub while_recovering : Meanwhile
  pub reacquired : Acquire

-- The state of a worker's run: the session and the retry counts of its tracks.
pub record Run : Type 0 where
  pub session : MusicSession
  pub backend_retries : Dict ℕ ℕ
  pub media_retries : Dict ℕ ℕ

pub record PlaybackAttempt : Type 0 where
  pub playback : Option ℕ
  pub completed : Bool
  pub retry_current : Bool
  pub halt_after_failure : Bool

abbrev pub new_attempt : PlaybackAttempt
new_attempt = record {
  playback = none;
  completed = false;
  retry_current = false;
  halt_after_failure = false;
}

-- retries.get(item.id, 0)
abbrev pub retries : Dict ℕ ℕ → QueuedTrack → ℕ
retries counts item = option_or (get counts item.id) 0

abbrev pub is_task : Option ResolveTask → ℕ → Bool
is_task none id = false
is_task (some t) id = nat_beq t.id id

unfoldable pub forget_resolve : ℕ → MusicSession → MusicSession
forget_resolve id s = if is_task s.resolve_task id then record s { resolve_task = none } else s

-- The end of prepare: a started playback is kept, or stopped for a track that is skipped.
unfoldable pub keep_playback :
    Answers
    → Result PlaybackException ℕ
    → MusicSession
    → Result PlaybackException (Option ℕ) × MusicSession
keep_playback env (err e) s = (err e, s)
keep_playback env (ok playback) s =
    if s.skip_requested then (elim env.stopped [ ok _ ↦ ok none | err e ↦ err e ], s) else (
      ok (some playback),
      bump (record (env.while_locking s) {
        playback = some playback;
        state = PlaybackState.playing;
      }),
    )

unfoldable pub after_resolve :
    Answers → Resolved → MusicSession → Result PlaybackException (Option ℕ) × MusicSession
after_resolve env playable s =
    if s.skip_requested then (ok none, s) else keep_playback env env.started (env.while_starting s)
after_resolve env cancelled_alone s = (if s.skip_requested then ok none else err cancelled, s)
after_resolve env (raised e) s = (err e, s)

-- TrackPlaybackRunner.prepare: the playback, or none for a track that is skipped.
unfoldable pub prepare : Answers → MusicSession → Result PlaybackException (Option ℕ) × MusicSession
prepare env s =
    if s.skip_requested
    then (ok none, s)
    else (let resolving = record s {
      resolve_task = some (record { id = env.resolve_id; done = false; cancelled = false });
    } in
        after_resolve env env.resolved
          (forget_resolve env.resolve_id (env.while_resolving resolving)))

-- _reacquire_voice
unfoldable pub reacquire_voice : Answers → MusicSession → Bool × MusicSession
reacquire_voice env s =
    let recovering =
      env.while_recovering
        (bump (record s { voice_reserved = false; state = PlaybackState.recovering })) in
    elim env.reacquired [
      | Acquire.raised ↦ (false, recovering)
      | answered acquired ↦ (acquired, record recovering { voice_reserved = acquired })
    ]
