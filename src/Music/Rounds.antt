-- ===== src/Music/Rounds.antt =====
-- The worker keeps its session consistent, whatever the backend answers and whatever requests are
-- made while it awaits.
use cywl_oopz.Prelude.{
  ℕ, Bool, false, List, [], ◌∷◌, Option, none, some, arith, All, if_ind, Result, ok, err,
}
use cywl_oopz.Music.Models.{QueuedTrack, MusicPlaybackResult, MusicPlaybackEndReason, PlaybackState}
use cywl_oopz.Music.Session.{MusicSession, bump}
use cywl_oopz.Music.Attempt.{
  by_reason, play_prepared, await_finished, handle_result, handle_backend_error,
  handle_decoder_error, handle_exception, play_attempt,
}
use cywl_oopz.Music.Prepare.{
  Run, PlaybackAttempt, PlaybackException, Resolved, playable, cancelled_alone, raised, cancelled,
  forget_resolve, keep_playback, after_resolve, prepare, reacquire_voice, new_attempt,
}
use cywl_oopz.Music.Worker.{
  Round, Progress, running, ended, take_or_release, finish_attempt, conclude, attempt, round, run,
}
use cywl_oopz.Music.Resting.{
  IsFair, IsResting, IsAttempting, while-IsAttempting, while-IsResting, Taken, take-IsResting,
  finish-IsResting, close-IsResting,
}

-- The playback that an attempt holds after prepare.
abbrev handle_of : Result PlaybackException (Option ℕ) → Option ℕ
handle_of (ok p) = p
handle_of (err e) = none

abbrev Holds : Result PlaybackException (Option ℕ) × MusicSession → Type 0
Holds (prepared, t) = IsAttempting (handle_of prepared) t

abbrev Keeps : Bool × PlaybackAttempt × Run → Type 0
Keeps (stop, a, r) = IsAttempting a.playback r.session

-- A run rests between two rounds, and a session after the last.
abbrev pub Rests : Progress → Type 0
Rests (running r) = IsResting r.session
Rests (ended s) = IsResting s

forget-IsAttempting :
    (id : ℕ) (p : Option ℕ) (s : MusicSession)
    → IsAttempting p s
    → IsAttempting p (forget_resolve id s)
unfolding forget_resolve
forget-IsAttempting id p s c = ground arith

module _ (e : Round) (fair : IsFair e) where
  keep-IsAttempting :
      (started : Result PlaybackException ℕ) (s : MusicSession)
      → IsAttempting none s
      → let (prepared, t) = keep_playback e.answers started s in IsAttempting (handle_of prepared) t
  unfolding keep_playback
  keep-IsAttempting (err x) s c = c
  keep-IsAttempting (ok playback) s c =
      let locked = while-IsAttempting e.answers.while_locking fair.locking s none c in ground arith

  after-IsAttempting :
      (resolved : Resolved) (s : MusicSession)
      → IsAttempting none s
      → let (prepared, t) = after_resolve e.answers resolved s in
        IsAttempting (handle_of prepared) t
  unfolding after_resolve
  after-IsAttempting playable s c =
      if_ind Holds s.skip_requested (λ _. c)
        (λ _.
          keep-IsAttempting e.answers.started (e.answers.while_starting s)
            (while-IsAttempting e.answers.while_starting fair.starting s none c))
  after-IsAttempting cancelled_alone s c = ground arith
  after-IsAttempting (raised x) s c = c

  prepare-IsAttempting :
      (s : MusicSession)
      → IsAttempting none s
      → let (prepared, t) = prepare e.answers s in IsAttempting (handle_of prepared) t
  unfolding prepare
  prepare-IsAttempting s c =
      let resolving : MusicSession = record s {
        resolve_task = some (record { id = e.answers.resolve_id; done = false; cancelled = false });
      } in
      let began : IsAttempting none resolving = ground arith in
      let resolved =
        while-IsAttempting e.answers.while_resolving fair.resolving resolving none began in
      if_ind Holds s.skip_requested (λ _. c)
        (λ _.
          after-IsAttempting e.answers.resolved _
            (forget-IsAttempting e.answers.resolve_id none _ resolved))

  reacquire-IsAttempting :
      (p : Option ℕ) (s : MusicSession)
      → IsAttempting p s
      → IsAttempting p (reacquire_voice e.answers s).1
  unfolding reacquire_voice
  reacquire-IsAttempting p s c =
      let began : IsAttempting p
          (bump (record s { voice_reserved = false; state = PlaybackState.recovering })) =
        ground arith in
      let recovered = while-IsAttempting e.answers.while_recovering fair.recovering _ p began in
      ground arith

  by_reason-IsAttempting :
      (item : QueuedTrack) (reason : MusicPlaybackEndReason) (duration : Option ℕ)
      (a : PlaybackAttempt) (r : Run)
      → IsAttempting a.playback r.session
      → let (a', r') = by_reason item e.answers reason duration a r in
        IsAttempting a'.playback r'.session
  by_reason-IsAttempting item MusicPlaybackEndReason.voice_left duration a r c =
      let fresh = reacquire-IsAttempting a.playback r.session c in ground arith
  by_reason-IsAttempting item MusicPlaybackEndReason.finished duration a r c = c
  by_reason-IsAttempting item MusicPlaybackEndReason.stopped duration a r c = c
  by_reason-IsAttempting item MusicPlaybackEndReason.replaced duration a r c = c
  by_reason-IsAttempting item MusicPlaybackEndReason.track_error duration a r c = ground arith
  by_reason-IsAttempting item MusicPlaybackEndReason.backend_closed duration a r c = ground arith

  handle_exception-IsAttempting :
      (item : QueuedTrack) (x : PlaybackException) (a : PlaybackAttempt) (r : Run)
      → IsAttempting a.playback r.session
      → let (stop, a', r') = handle_exception item x a r in IsAttempting a'.playback r'.session
  unfolding handle_backend_error handle_decoder_error
  handle_exception-IsAttempting item cancelled a r c = c
  handle_exception-IsAttempting item x a r c = ground arith

  await-IsAttempting :
      (item : QueuedTrack) (result : Result PlaybackException MusicPlaybackResult)
      (a : PlaybackAttempt) (r : Run)
      → IsAttempting a.playback r.session
      → Keeps (await_finished item e.answers result a r)
  unfolding handle_result
  await-IsAttempting item (ok result) a r c =
      by_reason-IsAttempting item result.end_reason result.duration_ms a r c
  await-IsAttempting item (err x) a r c = handle_exception-IsAttempting item x a r c

  play_prepared-IsAttempting :
      (item : QueuedTrack) (prepared : Result PlaybackException (Option ℕ)) (r : Run)
      → IsAttempting (handle_of prepared) r.session
      → Keeps (play_prepared item e.answers prepared new_attempt r)
  play_prepared-IsAttempting item (err x) r c = handle_exception-IsAttempting item x new_attempt r c
  play_prepared-IsAttempting item (ok none) r c = c
  play_prepared-IsAttempting item (ok (some playback)) r c =
      let a : PlaybackAttempt = record new_attempt { playback = some playback } in
      let s = e.answers.while_playing r.session in
      await-IsAttempting item e.answers.finished a (record r { session = s })
        (while-IsAttempting e.answers.while_playing fair.playing r.session (some playback) c)

  play_attempt-IsAttempting :
      (item : QueuedTrack) (r : Run)
      → IsAttempting none r.session
      → Keeps (play_attempt item e.answers r)
  unfolding play_attempt
  play_attempt-IsAttempting item r c =
      let (prepared, s) = prepare e.answers r.session in
      play_prepared-IsAttempting item prepared (record r { session = s })
        (prepare-IsAttempting r.session c)

  conclude-IsResting :
      (me : ℕ) (item : QueuedTrack) (played : Bool × PlaybackAttempt × Run)
      → Keeps played
      → Rests (conclude me e item played)
  conclude-IsResting me item (stop, a, r) c =
      let disposing = e.while_disposing r.session in
      let finished_run = finish_attempt item a (record r { session = disposing }) in
      let rest =
        finish-IsResting item a (record r { session = disposing })
          (while-IsAttempting e.while_disposing fair.disposing r.session a.playback c) in
      let idle = while-IsResting e.while_idle fair.idle finished_run.session rest in
      let closed = close-IsResting me e (e.while_idle finished_run.session) idle.consistent in
      if_ind Rests stop (λ _. closed)
        (λ _. if_ind Rests a.halt_after_failure (λ _. closed) (λ _. idle))

  attempt-IsResting :
      (me : ℕ) (r : Run) (taken : Option QueuedTrack × MusicSession)
      → Taken taken
      → Rests (attempt me e r taken)
  attempt-IsResting me r (none, s) c = c
  attempt-IsResting me r (some item, s) c =
      let began = record r { session = s } in
      conclude-IsResting me item (play_attempt item e.answers began)
        (play_attempt-IsAttempting item began c)

  round-IsResting : (me : ℕ) (r : Run) → IsResting r.session → Rests (round me e r)
  unfolding round
  round-IsResting me r c =
      attempt-IsResting me r (take_or_release me e.rng e.returns r.session)
        (take-IsResting me e r.session c)

-- Whatever the backend answers, and whatever requests other tasks make while the worker awaits,
-- a run that begins with a consistent session and no current track has such a session between
-- any two rounds of the worker and when the worker has ended.
pub run-IsResting :
    (me : ℕ) (rounds : List Round) (p : Progress)
    → All IsFair rounds
    → Rests p
    → Rests (run me rounds p)
unfolding run
run-IsResting me [] (running r) fair c = c
run-IsResting me [] (ended s) fair c = c
run-IsResting me (e ∷ rounds) (ended s) fair c = c
run-IsResting me (e ∷ rounds) (running r) fair c =
    run-IsResting me rounds (round me e r) fair.1 (round-IsResting e fair.0 me r c)
