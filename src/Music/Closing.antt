-- ===== src/Music/Closing.antt =====
-- How the worker of features/music/playback.py gives a session up: by _take_or_release on an empty
-- queue, or by _close_session.
use cywl_oopz.Prelude.{
  ℕ, ◌≡◌, refl, ap, ◌∙◌, inl, inr, Bool, true, false, not, ◌&&◌, ◌||◌, [], none, arith, Bool-cases,
  ◌⊎◌,
}
use cywl_oopz.Music.Models.{PlaybackState, is_all}
use cywl_oopz.Music.Session.{MusicSession, Rng, take_next, take_from, bump}
use cywl_oopz.Music.Session.Deque.{popleft}
use cywl_oopz.Music.Worker.{
  take_or_release, rebuild_cycle, release_session, drained, release_voice, close_session,
  close_session-cases, close_reserved, settle, abandon, is_empty, leave, releasing,
}

pub release_voice_lem :
    (returns : ℕ → Bool) → release_voice returns ≡ (returns 1 || returns 2 || returns 3)
unfolding release_voice
release_voice_lem returns = ground arith

-- A session that the worker has given up: nothing plays, and the voice is held only in a failure
-- that a later request can see.
pub record IsGivenUp (s : MusicSession) : Type 0 where
  pub no_current : s.current ≡ none
  pub holds_failed : s.voice_reserved ≡ true → s.state ≡ PlaybackState.failed
  pub settled : (s.state ≡ PlaybackState.idle) ⊎ (s.state ≡ PlaybackState.failed)

settle-abandon :
    (me : ℕ) (s : MusicSession)
    → let t = settle (abandon me s) in
      (t.current ≡ none)
      × (t.voice_reserved ≡ false)
      × ((t.state ≡ PlaybackState.idle) ⊎ (t.state ≡ PlaybackState.failed))
unfolding settle abandon
settle-abandon me s = ground arith

close_reserved-IsGivenUp :
    (released : Bool) (s : MusicSession)
    → s.current ≡ none
    → (s.state ≡ PlaybackState.idle) ⊎ (s.state ≡ PlaybackState.failed)
    → IsGivenUp (close_reserved released s)
unfolding close_reserved
close_reserved-IsGivenUp released s c e = elim (Bool-cases released) [
  | inl r ↦ ground arith
  | inr r ↦ ground arith
]

-- Whatever the session was when the worker was cancelled or halted, closing it leaves no current
-- track, an idle or a failed state, and the voice held only in a failed one.
pub close_session-IsGivenUp :
    (me : ℕ) (returns : ℕ → Bool) (s : MusicSession) → IsGivenUp (close_session me returns s)
close_session-IsGivenUp me returns s =
    let (c, v, e) = settle-abandon me s in
    close_session-cases me returns s IsGivenUp
      (record { no_current = c; holds_failed = λ h. cc; settled = e })
      (λ released. close_reserved-IsGivenUp released (settle (abandon me s)) c e)

drained-IsGivenUp :
    (released : Bool) (s : MusicSession) → s.current ≡ none → IsGivenUp (drained released s)
unfolding drained
drained-IsGivenUp released s c = elim (Bool-cases released) [
  | inl r ↦ rw r (record { no_current = c; holds_failed = λ h. cc; settled = inl refl })
  | inr r ↦ rw r (record { no_current = c; holds_failed = λ h. refl; settled = inr refl })
]

bump-IsGivenUp : (s : MusicSession) → IsGivenUp s → IsGivenUp (bump s)
bump-IsGivenUp s g = record {
  no_current = g.no_current;
  holds_failed = g.holds_failed;
  settled = g.settled;
}

leave-IsGivenUp : (me : ℕ) (s : MusicSession) → IsGivenUp s → IsGivenUp (leave me s)
leave-IsGivenUp me s g = record {
  no_current = ground arith;
  holds_failed = ground arith;
  settled = ground arith;
}

release_session-IsGivenUp :
    (me : ℕ) (returns : ℕ → Bool) (s : MusicSession) → IsGivenUp (release_session me returns s)
unfolding release_session
release_session-IsGivenUp me returns s =
    leave-IsGivenUp me _
      (bump-IsGivenUp _ (drained-IsGivenUp (release_voice returns) (releasing s) refl))

leave-reserved : (me : ℕ) (s : MusicSession) → (leave me s).voice_reserved ≡ s.voice_reserved
leave-reserved me s = ground arith

drained-reserved :
    (released : Bool) (s : MusicSession) → (drained released s).voice_reserved ≡ not released
unfolding drained
drained-reserved true s = refl
drained-reserved false s = refl

release_session-reserved :
    (me : ℕ) (returns : ℕ → Bool) (s : MusicSession)
    → (release_session me returns s).voice_reserved ≡ not (release_voice returns)
unfolding release_session
release_session-reserved me returns s =
    leave-reserved me _ ∙ drained-reserved (release_voice returns) (releasing s)

rebuilt_none :
    (s : MusicSession)
    → s.queue ≡ []
    → is_all s.policy.repeat && not (is_empty s.cycle_history) ≡ false
    → rebuild_cycle s ≡ s
unfolding rebuild_cycle
rebuilt_none s q n = ground arith

take_next-none : (rng : Rng) (s : MusicSession) → s.queue ≡ [] → take_next rng s ≡ none
unfolding take_next take_from popleft
take_next-none rng s q = ground arith

-- On an empty queue with nothing to repeat the worker takes no track, and gives the session up: the
-- voice stays reserved exactly when none of the three calls of voice.release returns.
take_or_release_empty :
    (me : ℕ) (rng : Rng) (returns : ℕ → Bool) (s : MusicSession)
    → s.queue ≡ []
    → is_all s.policy.repeat && not (is_empty s.cycle_history) ≡ false
    → let (item, t) = take_or_release me rng returns s in
      (item ≡ none) × IsGivenUp t × (t.voice_reserved ≡ not (returns 1 || returns 2 || returns 3))
unfolding take_or_release
take_or_release_empty me rng returns s q n = rw (rebuilt_none s q n) (
    rw (take_next-none rng s q) (
      refl,
      release_session-IsGivenUp me returns s,
      release_session-reserved me returns s ∙ ap not (release_voice_lem returns),
    ))
