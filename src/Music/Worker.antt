-- ===== src/Music/Worker.antt =====
-- The worker of features/music/playback.py: _take_or_release, _finish_attempt, _close_session,
-- release_voice and the loop of run.
use cywl_oopz.Prelude.{
  ℕ, ◌+◌, Bool, true, false, not, ◌&&◌, List, [], ◌∷◌, ◌++◌, Option, none, some, if◌then◌else◌,
  nat_beq, nat_eq, Bool-cases, inl, inr,
}
use cywl_oopz.Prelude.Dict.{pop}
use cywl_oopz.Music.Models.{
  QueuedTrack, PlaybackState, MusicFailureCode, MusicFailureScope, is_all, default_policy,
}
use cywl_oopz.Music.Session.{
  MusicSession, Rng, take_next, retain_completed, record_failure, cancel_resolve, bump,
}
use cywl_oopz.Music.Attempt.{play_attempt}
use cywl_oopz.Music.Prepare.{Answers, Run, PlaybackAttempt, Meanwhile}

-- The pauses after a failed release, in milliseconds.
abbrev pub release_delays : List ℕ
release_delays = 100 ∷ 250 ∷ 500 ∷ []

-- The loop of release_voice; `returns k` tells whether the k-th call of voice.release returns.
release_loop : (ℕ → Bool) → ℕ → List ℕ → Bool
release_loop returns attempt [] = false
release_loop returns attempt (delay ∷ delays) =
    if returns attempt then true else release_loop returns (attempt + 1) delays

unfoldable pub release_voice : (ℕ → Bool) → Bool
unfolding release_loop
release_voice returns = release_loop returns 1 release_delays

abbrev pub is_empty : List QueuedTrack → Bool
is_empty [] = true
is_empty (x ∷ xs) = false

-- if session.worker is asyncio.current_task(): session.worker = None
abbrev pub leave : ℕ → MusicSession → MusicSession
leave me s = elim s.worker [
  | none ↦ s
  | some w ↦ if nat_beq w.id me then record s { worker = none } else s
]

-- The first branch of _take_or_release: a new repeat cycle.
unfoldable pub rebuild_cycle : MusicSession → MusicSession
rebuild_cycle s =
    if is_empty s.queue && is_all s.policy.repeat && not (is_empty s.cycle_history)
    then bump (record s { queue = s.queue ++ s.cycle_history; cycle_history = [] })
    else s

-- record_failure(None, RELEASE_FAILED, VOICE_SESSION, recoverable=True, retry_count=3)
abbrev pub release_failure : MusicSession → MusicSession
release_failure =
    record_failure none MusicFailureCode.release_failed MusicFailureScope.voice_session true 3

unfoldable pub drained : Bool → MusicSession → MusicSession
drained released s =
    if released
    then record s {
      voice_reserved = false;
      state = PlaybackState.idle;
      policy = default_policy;
      cycle_history = [];
      idempotent_enqueues = [];
    }
    else release_failure (record s { voice_reserved = true; state = PlaybackState.failed })

abbrev pub releasing : MusicSession → MusicSession
releasing s = bump (record s { current = none; state = PlaybackState.releasing })

-- The branch of _take_or_release for an empty queue.
unfoldable pub release_session : ℕ → (ℕ → Bool) → MusicSession → MusicSession
unfolding release_voice drained
release_session me returns s = leave me (bump (drained (release_voice returns) (releasing s)))

-- The branch of _take_or_release that takes a track.
abbrev pub loaded : QueuedTrack → MusicSession → MusicSession
loaded item s = record s {
  current = some item;
  state = PlaybackState.loading;
  revision = s.revision + 1;
  skip_requested = false;
  retain_skipped_for_cycle = false;
}

abbrev taken :
    ℕ
    → (ℕ → Bool)
    → MusicSession
    → Option (QueuedTrack × MusicSession)
    → Option QueuedTrack × MusicSession
taken me returns s none = (none, release_session me returns s)
taken me returns s (some (item, s')) = (some item, loaded item s')

-- _take_or_release. take_next finds no track exactly when the queue is empty.
unfoldable pub take_or_release :
    ℕ → Rng → (ℕ → Bool) → MusicSession → Option QueuedTrack × MusicSession
take_or_release me rng returns s =
    let s' = rebuild_cycle s in taken me returns s' (take_next rng s')

-- backend_retries.pop(item.id, None); media_retries.pop(item.id, None)
abbrev pub forget_retries : QueuedTrack → Run → Run
forget_retries item r = record r {
  backend_retries = pop r.backend_retries item.id;
  media_retries = pop r.media_retries item.id;
}

-- The if chain of _finish_attempt.
abbrev pub dispose : QueuedTrack → PlaybackAttempt → Run → Run
dispose item a r =
    let s = r.session in
    if a.halt_after_failure && not s.skip_requested
    then forget_retries item (record r { session = record s { queue = item ∷ s.queue } })
    else if not s.skip_requested && a.completed
    then forget_retries item
        (record r { session = record (retain_completed item s) { last_failure = none } })
    else if not s.skip_requested && a.retry_current
    then record r {
      session = bump (record s { queue = item ∷ s.queue; state = PlaybackState.waiting });
    }
    else if s.retain_skipped_for_cycle
    then forget_retries item
        (record r { session = record s { cycle_history = s.cycle_history ++ item ∷ [] } })
    else forget_retries item r

abbrev same_playback : Option ℕ → Option ℕ → Bool
same_playback none none = true
same_playback (some p) (some q) = nat_beq p q
same_playback _ _ = false

-- The part of _finish_attempt below the if chain.
abbrev pub reset_current : PlaybackAttempt → MusicSession → MusicSession
reset_current a s = bump (record s {
  playback = if same_playback s.playback a.playback then none else s.playback;
  current = none;
  skip_requested = false;
  retain_skipped_for_cycle = false;
})

-- _finish_attempt
unfoldable pub finish_attempt : QueuedTrack → PlaybackAttempt → Run → Run
unfolding retain_completed
finish_attempt item a r =
    let r' = dispose item a r in record r' { session = reset_current a r'.session }

abbrev is_settled : PlaybackState → Bool
is_settled PlaybackState.idle = true
is_settled PlaybackState.failed = true
is_settled _ = false

abbrev pub is_failed : PlaybackState → Bool
is_failed PlaybackState.failed = true
is_failed _ = false

-- The writes of _close_session up to the worker's leaving.
unfoldable pub abandon : ℕ → MusicSession → MusicSession
abandon me s = leave me (record (cancel_resolve (record s { playback = none })) {
  resolve_task = none;
  current = none;
  skip_requested = false;
  retain_skipped_for_cycle = false;
  voice_reserved = false;
})

-- if session.state not in {IDLE, FAILED}: session.state = IDLE; session.revision += 1
unfoldable pub settle : MusicSession → MusicSession
settle s = if is_settled s.state then s else bump (record s { state = PlaybackState.idle })

-- The last branch of _close_session, for a session that had the voice reserved.
unfoldable pub close_reserved : Bool → MusicSession → MusicSession
close_reserved released s =
    let s' = record s { voice_reserved = not released } in
    if not released && not (is_failed s.state)
    then bump (release_failure (record s' { state = PlaybackState.failed }))
    else s'

-- _close_session
unfoldable pub close_session : ℕ → (ℕ → Bool) → MusicSession → MusicSession
unfolding release_voice abandon settle close_reserved
close_session me returns s =
    let settled = settle (abandon me s) in
    if s.voice_reserved then close_reserved (release_voice returns) settled else settled

-- A property of both ends of _close_session holds of its session.
pub close_session-cases :
    (me : ℕ) (returns : ℕ → Bool) (s : MusicSession) (P : MusicSession → Type 0)
    → P (settle (abandon me s))
    → ((released : Bool) → P (close_reserved released (settle (abandon me s))))
    → P (close_session me returns s)
unfolding close_session
close_session-cases me returns s P kept given_back = elim (Bool-cases s.voice_reserved) [
  | inl e ↦ rw e (given_back (release_voice returns))
  | inr e ↦ rw e kept
]

-- What one round of the worker's loop meets: the generator, the calls of voice.release, the
-- attempt's answers and what other tasks do between two sections of the worker.
pub record Round : Type 0 where
  pub rng : Rng
  pub returns : ℕ → Bool
  pub answers : Answers
  pub while_disposing : Meanwhile
  pub while_idle : Meanwhile

-- How the loop of run stands after a round; an ended run has left its session.
pub data Progress : Type 0 where
  running : Run → Progress
  ended : MusicSession → Progress

-- The rest of a round, once the attempt has been played.
abbrev pub conclude : ℕ → Round → QueuedTrack → Bool × PlaybackAttempt × Run → Progress
conclude me e item (was_cancelled, a, r) =
    let r' = finish_attempt item a (record r { session = e.while_disposing r.session }) in
    let s = e.while_idle r'.session in
    if was_cancelled
    then ended (close_session me e.returns s)
    else if a.halt_after_failure
    then ended (close_session me e.returns s)
    else running (record r' { session = s })

abbrev pub attempt : ℕ → Round → Run → Option QueuedTrack × MusicSession → Progress
attempt me e r (none, s) = ended s
attempt me e r (some item, s) =
    conclude me e item (play_attempt item e.answers (record r { session = s }))

-- One round of the loop of run.
unfoldable pub round : ℕ → Round → Run → Progress
round me e r = attempt me e r (take_or_release me e.rng e.returns r.session)

-- The loop of run over the rounds that the environment provides.
unfoldable pub run : ℕ → List Round → Progress → Progress
run me rounds (ended s) = ended s
run me [] (running r) = running r
run me (e ∷ rounds) (running r) = run me rounds (round me e r)
