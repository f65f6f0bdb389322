-- ===== src/Music/Calm.antt =====
-- What one attempt does to a queue that no request changes meanwhile.
use cywl_oopz.Prelude.{
  ℕ, ◌<◌, ◌≡◌, refl, ◌∙◌, inl, inr, Bool, true, false, ◌&&◌, Option, none, some, arith,
  if◌then◌else◌, if_ind, Bool-cases, Result, ok, err,
}
use cywl_oopz.Prelude.Dict.{Dict}
use cywl_oopz.Music.Models.{
  QueuedTrack, MusicPlaybackResult, MusicPlaybackEndReason, MusicFailureCode, PlaybackState,
}
use cywl_oopz.Music.Session.{MusicSession, bump}
use cywl_oopz.Music.Attempt.{
  may_retry, is_early, retry_media, fail_media, retry_backend_closed, retry_voice_left,
  halt_backend, count_retry, by_reason, play_prepared, await_finished, handle_result,
  handle_backend_error, handle_decoder_error, handle_exception, play_attempt,
}
use cywl_oopz.Music.Prepare.{
  Meanwhile, Run, PlaybackAttempt, PlaybackException, Resolved, playable, cancelled_alone, raised,
  cancelled, decoder, catalog, other, retries, forget_resolve, keep_playback, after_resolve,
  prepare, reacquire_voice, new_attempt,
}
use cywl_oopz.Music.Worker.{Round}

-- The fields of a session that decide what plays next.
pub record SameQueue (s t : MusicSession) : Type 0 where
  pub queue : t.queue ≡ s.queue
  pub cycle_history : t.cycle_history ≡ s.cycle_history
  pub policy : t.policy ≡ s.policy
  pub skip : t.skip_requested ≡ s.skip_requested
  pub retain : t.retain_skipped_for_cycle ≡ s.retain_skipped_for_cycle

abbrev pub LeavesQueue : Meanwhile → Type 0
LeavesQueue f = (s : MusicSession) → SameQueue s (f s)

-- Other tasks leave the queue alone during a round; they may pause and resume.
pub record IsCalm (e : Round) : Type 0 where
  pub resolving : LeavesQueue e.answers.while_resolving
  pub starting : LeavesQueue e.answers.while_starting
  pub locking : LeavesQueue e.answers.while_locking
  pub playing : LeavesQueue e.answers.while_playing
  pub recovering : LeavesQueue e.answers.while_recovering
  pub disposing : LeavesQueue e.while_disposing
  pub idle : LeavesQueue e.while_idle

pub SameQueue-refl : (s : MusicSession) → SameQueue s s
SameQueue-refl s = record {
  queue = refl;
  cycle_history = refl;
  policy = refl;
  skip = refl;
  retain = refl;
}

pub SameQueue-trans : (s t u : MusicSession) → SameQueue s t → SameQueue t u → SameQueue s u
SameQueue-trans s t u p q = record {
  queue = q.queue ∙ p.queue;
  cycle_history = q.cycle_history ∙ p.cycle_history;
  policy = q.policy ∙ p.policy;
  skip = q.skip ∙ p.skip;
  retain = q.retain ∙ p.retain;
}

-- What an attempt may do to the retry counts: it halts, it uses one retry up, or it leaves them.
pub data Counts (item : QueuedTrack) (a : PlaybackAttempt) (r t : Run) : Type 0 where
  halts : a.halt_after_failure ≡ true → Counts item a r t
  retries_backend :
      a.retry_current ≡ true
      → retries r.backend_retries item < 1
      → t.backend_retries ≡ count_retry r.backend_retries item
      → t.media_retries ≡ r.media_retries
      → Counts item a r t
  retries_media :
      a.retry_current ≡ true
      → retries r.media_retries item < 1
      → t.backend_retries ≡ r.backend_retries
      → t.media_retries ≡ count_retry r.media_retries item
      → Counts item a r t
  leaves :
      a.retry_current ≡ false
      → t.backend_retries ≡ r.backend_retries
      → t.media_retries ≡ r.media_retries
      → Counts item a r t

-- The effect of a handler: the session's queue stays, and the counts change as above.
abbrev Handled : QueuedTrack → Run → PlaybackAttempt × Run → Type 0
Handled item r (a, t) = SameQueue r.session t.session × Counts item a r t

-- The effect of a whole attempt.
abbrev pub Effect : QueuedTrack → Run → Bool × PlaybackAttempt × Run → Type 0
Effect item r (stop, a, t) = SameQueue r.session t.session × Counts item a r t

Counts-from :
    (item : QueuedTrack) (a : PlaybackAttempt) (r m t : Run)
    → m.backend_retries ≡ r.backend_retries
    → m.media_retries ≡ r.media_retries
    → Counts item a m t
    → Counts item a r t
Counts-from item a r m t b k (halts h) = halts h
Counts-from item a r m t b k (retries_backend h l p q) =
    retries_backend h (rw (← b) l) (rw (← b) p) (rw (← k) q)
Counts-from item a r m t b k (retries_media h l p q) =
    retries_media h (rw (← k) l) (rw (← b) p) (rw (← k) q)
Counts-from item a r m t b k (leaves h p q) = leaves h (rw (← b) p) (rw (← k) q)

-- An effect from a run whose session was moved without touching its queue.
moved :
    (item : QueuedTrack) (r m : Run) (played : Bool × PlaybackAttempt × Run)
    → SameQueue r.session m.session
    → m.backend_retries ≡ r.backend_retries
    → m.media_retries ≡ r.media_retries
    → Effect item m played
    → Effect item r played
moved item r m (stop, a, t) same b k (same', counts) =
    (SameQueue-trans r.session m.session t.session same same', Counts-from item a r m t b k counts)

module _ (item : QueuedTrack) (a : PlaybackAttempt) (r : Run)
    (fresh : a.retry_current ≡ false) where
  may_retry-lt : (counts : Dict ℕ ℕ) → may_retry item counts r ≡ true → retries counts item < 1
  may_retry-lt counts h = ground arith

  media-Handled :
      (b : Bool)
      → (b ≡ true → may_retry item r.media_retries r ≡ true)
      → Handled item r (if b then retry_media item a r else fail_media item a r)
  media-Handled b may =
      if_ind (Handled item r) b
        (λ h. (ground arith, retries_media refl (may_retry-lt r.media_retries (may h)) refl refl))
        (λ _. (ground arith, leaves fresh refl refl))

  backend-Handled :
      (code : MusicFailureCode)
      → Handled item r (
          if may_retry item r.backend_retries r
          then retry_backend_closed item a r
          else halt_backend item code a r)
  backend-Handled code =
      if_ind (Handled item r) (may_retry item r.backend_retries r)
        (λ h. (ground arith, retries_backend refl (may_retry-lt r.backend_retries h) refl refl))
        (λ _. (ground arith, halts refl))

module _ (e : Round) (calm : IsCalm e) where
  reacquire-SameQueue : (s : MusicSession) → SameQueue s (reacquire_voice e.answers s).1
  unfolding reacquire_voice
  reacquire-SameQueue s =
      let during =
        calm.recovering
          (bump (record s { voice_reserved = false; state = PlaybackState.recovering })) in
      ground arith

  voice-Handled :
      (item : QueuedTrack) (a : PlaybackAttempt) (r : Run)
      → retries r.backend_retries item < 1
      → Handled item r (retry_voice_left item e.answers a r)
  voice-Handled item a r h =
      let same = reacquire-SameQueue r.session in
      elim (Bool-cases (reacquire_voice e.answers r.session).0) [
        | inl got ↦ (ground arith, retries_backend got h refl refl)
        | inr lost ↦ (ground arith, halts (rw lost))
      ]

  by_reason-Handled :
      (item : QueuedTrack) (reason : MusicPlaybackEndReason) (duration : Option ℕ)
      (a : PlaybackAttempt) (r : Run)
      → a.retry_current ≡ false
      → Handled item r (by_reason item e.answers reason duration a r)
  by_reason-Handled item MusicPlaybackEndReason.finished duration a r n =
      (SameQueue-refl r.session, leaves n refl refl)
  by_reason-Handled item MusicPlaybackEndReason.stopped duration a r n =
      (SameQueue-refl r.session, leaves n refl refl)
  by_reason-Handled item MusicPlaybackEndReason.replaced duration a r n =
      (SameQueue-refl r.session, leaves n refl refl)
  by_reason-Handled item MusicPlaybackEndReason.track_error duration a r n =
      media-Handled item a r n (is_early item duration && may_retry item r.media_retries r)
        (λ h. ground arith)
  by_reason-Handled item MusicPlaybackEndReason.voice_left duration a r n =
      if_ind (Handled item r) (may_retry item r.backend_retries r)
        (λ h. voice-Handled item a r (may_retry-lt item a r n r.backend_retries h))
        (λ _. (ground arith, halts refl))
  by_reason-Handled item MusicPlaybackEndReason.backend_closed duration a r n =
      backend-Handled item a r n MusicFailureCode.backend_closed

  handle_exception-Effect :
      (item : QueuedTrack) (x : PlaybackException) (a : PlaybackAttempt) (r : Run)
      → a.retry_current ≡ false
      → Effect item r (handle_exception item x a r)
  unfolding handle_backend_error handle_decoder_error
  handle_exception-Effect item cancelled a r n = (SameQueue-refl r.session, leaves n refl refl)
  handle_exception-Effect item PlaybackException.backend_closed a r n =
      if_ind (Handled item r) (may_retry item r.backend_retries r)
        (λ h. (
          SameQueue-refl r.session,
          retries_backend refl (may_retry-lt item a r n r.backend_retries h) refl refl,
        ))
        (λ _. (ground arith, halts refl))
  handle_exception-Effect item decoder a r n =
      media-Handled item a r n (may_retry item r.media_retries r) (λ h. h)
  handle_exception-Effect item catalog a r n = (ground arith, leaves n refl refl)
  handle_exception-Effect item other a r n = (ground arith, leaves n refl refl)

  forget-SameQueue : (id : ℕ) (s : MusicSession) → SameQueue s (forget_resolve id s)
  unfolding forget_resolve
  forget-SameQueue id s = ground arith

  keep-SameQueue :
      (started : Result PlaybackException ℕ) (s : MusicSession)
      → SameQueue s (keep_playback e.answers started s).1
  unfolding keep_playback
  keep-SameQueue (err x) s = SameQueue-refl s
  keep-SameQueue (ok playback) s = let locked = calm.locking s in ground arith

  after-SameQueue :
      (resolved : Resolved) (s : MusicSession) → SameQueue s (after_resolve e.answers resolved s).1
  unfolding after_resolve
  after-SameQueue playable s =
      if_ind (λ (p : Result PlaybackException (Option ℕ) × MusicSession). SameQueue s p.1)
        s.skip_requested (λ _. SameQueue-refl s)
        (λ _.
          SameQueue-trans s (e.answers.while_starting s) _ (calm.starting s)
            (keep-SameQueue e.answers.started (e.answers.while_starting s)))
  after-SameQueue cancelled_alone s = SameQueue-refl s
  after-SameQueue (raised x) s = SameQueue-refl s

  prepare-SameQueue : (s : MusicSession) → SameQueue s (prepare e.answers s).1
  unfolding prepare
  prepare-SameQueue s =
      let resolving : MusicSession = record s {
        resolve_task = some (record { id = e.answers.resolve_id; done = false; cancelled = false });
      } in
      let resolved = e.answers.while_resolving resolving in
      let forgotten = forget_resolve e.answers.resolve_id resolved in
      let began : SameQueue s resolved =
        SameQueue-trans s resolving resolved (ground arith) (calm.resolving resolving) in
      let forgot =
        SameQueue-trans s resolved forgotten began
          (forget-SameQueue e.answers.resolve_id resolved) in
      if_ind (λ (p : Result PlaybackException (Option ℕ) × MusicSession). SameQueue s p.1)
        s.skip_requested (λ _. SameQueue-refl s)
        (λ _. SameQueue-trans s forgotten _ forgot (after-SameQueue e.answers.resolved forgotten))

  await-Effect :
      (item : QueuedTrack) (result : Result PlaybackException MusicPlaybackResult)
      (a : PlaybackAttempt) (r : Run)
      → a.retry_current ≡ false
      → Effect item r (await_finished item e.answers result a r)
  unfolding handle_result
  await-Effect item (ok result) a r n =
      by_reason-Handled item result.end_reason result.duration_ms a r n
  await-Effect item (err x) a r n = handle_exception-Effect item x a r n

  play_prepared-Effect :
      (item : QueuedTrack) (prepared : Result PlaybackException (Option ℕ)) (r : Run)
      → Effect item r (play_prepared item e.answers prepared new_attempt r)
  play_prepared-Effect item (err x) r = handle_exception-Effect item x new_attempt r refl
  play_prepared-Effect item (ok none) r = (SameQueue-refl r.session, leaves refl refl refl)
  play_prepared-Effect item (ok (some playback)) r =
      let playing = record r { session = e.answers.while_playing r.session } in
      let a = record new_attempt { playback = some playback } in
      moved item r playing (await_finished item e.answers e.answers.finished a playing)
        (calm.playing r.session) refl refl (await-Effect item e.answers.finished a playing refl)

  pub play_attempt-Effect :
      (item : QueuedTrack) (r : Run) → Effect item r (play_attempt item e.answers r)
  unfolding play_attempt
  play_attempt-Effect item r =
      let (prepared, s) = prepare e.answers r.session in
      let began = record r { session = s } in
      moved item r began (play_prepared item e.answers prepared new_attempt began)
        (prepare-SameQueue r.session) refl refl (play_prepared-Effect item prepared began)
