-- ===== src/Music/Attempt.antt =====
-- The handlers of one playback attempt: _play_attempt, _handle_result, _handle_backend_error and
-- _handle_decoder_error of features/music/playback.py.
use cywl_oopz.Prelude.{
  ℕ, ◌+◌, Bool, true, false, not, ◌&&◌, Option, none, some, if◌then◌else◌, ltb, leb, Result, ok,
  err, nat_eq,
}
use cywl_oopz.Prelude.Dict.{Dict, put}
use cywl_oopz.Music.Models.{
  QueuedTrack, PlaybackState, MusicPlaybackEndReason, MusicFailureCode, MusicFailureScope,
  MusicPlaybackResult,
}
use cywl_oopz.Music.Session.{MusicSession, record_failure, bump}
use cywl_oopz.Music.Prepare.{
  PlaybackException, Answers, Run, PlaybackAttempt, new_attempt, retries, prepare, reacquire_voice,
  cancelled, backend_closed, decoder, catalog, other,
}

-- session.state = FAILED, record_failure(...), session.revision += 1
abbrev pub fail :
    QueuedTrack → MusicFailureCode → MusicFailureScope → ℕ → MusicSession → MusicSession
fail item code scope count s =
    bump (
      record_failure (some item) code scope false count (record s { state = PlaybackState.failed }))

-- The state of a run with one more retry of a track, as get(item.id, 0) + 1.
abbrev pub count_retry : Dict ℕ ℕ → QueuedTrack → Dict ℕ ℕ
count_retry counts item = put counts item.id (retries counts item + 1)

module _ (item : QueuedTrack) where
  -- The branch of _handle_result that retries after the backend closed.
  abbrev pub retry_backend_closed : PlaybackAttempt → Run → PlaybackAttempt × Run
  retry_backend_closed a r =
      let counts = count_retry r.backend_retries item in
      (
        record a { retry_current = true },
        record r {
          backend_retries = counts;
          session =
              record_failure (some item) MusicFailureCode.backend_closed
                MusicFailureScope.voice_session true (retries counts item) r.session;
        },
      )

  -- The branch of _handle_result that retries with a fresh voice generation.
  abbrev pub retry_voice_left : Answers → PlaybackAttempt → Run → PlaybackAttempt × Run
  retry_voice_left env a r =
      let counts = count_retry r.backend_retries item in
      let (fresh, s) = reacquire_voice env r.session in
      (
        record a { retry_current = fresh; halt_after_failure = not fresh },
        record r {
          backend_retries = counts;
          session =
              record_failure (some item) MusicFailureCode.voice_left MusicFailureScope.voice_session
                fresh (retries counts item) s;
        },
      )

  abbrev pub retry_media : PlaybackAttempt → Run → PlaybackAttempt × Run
  retry_media a r =
      let counts = count_retry r.media_retries item in
      (
        record a { retry_current = true },
        record r {
          media_retries = counts;
          session =
              record_failure (some item) MusicFailureCode.track_error MusicFailureScope.track true
                (retries counts item) r.session;
        },
      )

  abbrev pub halt_backend : MusicFailureCode → PlaybackAttempt → Run → PlaybackAttempt × Run
  halt_backend code a r = (
    record a { halt_after_failure = true },
    record r {
      session =
          fail item code MusicFailureScope.voice_session (retries r.backend_retries item) r.session;
    },
  )

  abbrev pub fail_media : PlaybackAttempt → Run → PlaybackAttempt × Run
  fail_media a r = (
    a,
    record r {
      session =
          fail item MusicFailureCode.track_error MusicFailureScope.track
            (retries r.media_retries item) r.session;
    },
  )

  -- retries.get(item.id, 0) < 1 and not session.skip_requested.is_set()
  abbrev pub may_retry : Dict ℕ ℕ → Run → Bool
  may_retry counts r = ltb (retries counts item) 1 && not r.session.skip_requested

  -- duration is not None and duration <= 3.0
  abbrev pub is_early : Option ℕ → Bool
  is_early none = false
  is_early (some ms) = leb ms 3000

  -- The cases of _handle_result by the end reason. Its last branch, which raises for any other
  -- reason, is empty: every reason has its case here.
  abbrev pub by_reason :
      Answers → MusicPlaybackEndReason → Option ℕ → PlaybackAttempt → Run → PlaybackAttempt × Run
  by_reason env MusicPlaybackEndReason.finished duration a r = (record a { completed = true }, r)
  by_reason env MusicPlaybackEndReason.stopped duration a r = (a, r)
  by_reason env MusicPlaybackEndReason.replaced duration a r = (a, r)
  by_reason env MusicPlaybackEndReason.track_error duration a r =
      if is_early duration && may_retry r.media_retries r then retry_media a r else fail_media a r
  by_reason env MusicPlaybackEndReason.voice_left duration a r =
      if may_retry r.backend_retries r
      then retry_voice_left env a r
      else halt_backend MusicFailureCode.voice_left a r
  by_reason env MusicPlaybackEndReason.backend_closed duration a r =
      if may_retry r.backend_retries r
      then retry_backend_closed a r
      else halt_backend MusicFailureCode.backend_closed a r

  -- _handle_result
  unfoldable pub handle_result :
      Answers → MusicPlaybackResult → PlaybackAttempt → Run → PlaybackAttempt × Run
  handle_result env result = by_reason env result.end_reason result.duration_ms

  -- _handle_backend_error
  unfoldable pub handle_backend_error : PlaybackAttempt → Run → PlaybackAttempt × Run
  handle_backend_error a r =
      if may_retry r.backend_retries r
      then (
        record a { retry_current = true },
        record r { backend_retries = count_retry r.backend_retries item },
      )
      else halt_backend MusicFailureCode.backend_closed a r

  -- _handle_decoder_error
  unfoldable pub handle_decoder_error : PlaybackAttempt → Run → PlaybackAttempt × Run
  handle_decoder_error a r = if may_retry r.media_retries r then retry_media a r else fail_media a r

  -- The except clauses of _play_attempt; only a cancellation is raised again.
  abbrev pub handle_exception :
      PlaybackException → PlaybackAttempt → Run → Bool × PlaybackAttempt × Run
  handle_exception cancelled a r = (true, a, r)
  handle_exception backend_closed a r = let (a', r') = handle_backend_error a r in (false, a', r')
  handle_exception decoder a r = let (a', r') = handle_decoder_error a r in (false, a', r')
  handle_exception catalog a r = (
    false,
    a,
    record r {
      session = fail item MusicFailureCode.catalog_error MusicFailureScope.catalog 0 r.session;
    },
  )
  handle_exception other a r = (
    false,
    a,
    record r {
      session = fail item MusicFailureCode.track_error MusicFailureScope.track 0 r.session;
    },
  )

  abbrev pub await_finished :
      Answers
      → Result PlaybackException MusicPlaybackResult
      → PlaybackAttempt
      → Run
      → Bool × PlaybackAttempt × Run
  await_finished env (ok result) a r =
      let (a', r') = handle_result env result a r in (false, a', r')
  await_finished env (err e) a r = handle_exception e a r

  abbrev pub play_prepared :
      Answers
      → Result PlaybackException (Option ℕ)
      → PlaybackAttempt
      → Run
      → Bool × PlaybackAttempt × Run
  play_prepared env (err e) a r = handle_exception e a r
  play_prepared env (ok none) a r = (false, a, r)
  play_prepared env (ok (some playback)) a r =
      await_finished env env.finished (record a { playback = some playback })
        (record r { session = env.while_playing r.session })

  -- _play_attempt: whether it was cancelled, with the attempt and the run that it leaves.
  unfoldable pub play_attempt : Answers → Run → Bool × PlaybackAttempt × Run
  play_attempt env r =
      let (prepared, s) = prepare env r.session in
      play_prepared env prepared new_attempt (record r { session = s })
