-- ===== src/Music/Resting.antt =====
-- The sections of the worker in features/music/playback.py leave a session resting.
use cywl_oopz.Prelude.{
  ℕ, ◌≡◌, ◌∙◌, inl, inr, Bool, true, List, Option, none, some, arith, is_some, Option-cases,
}
use cywl_oopz.Music.Models.{QueuedTrack, PlaybackState}
use cywl_oopz.Music.Session.{MusicSession, Rng, bump, take_next, take_from}
use cywl_oopz.Music.Consistency.{IsConsistent}
use cywl_oopz.Music.Interleaving.{Requests, Requests-Leaves}
use cywl_oopz.Music.Prepare.{Meanwhile, Run, PlaybackAttempt}
use cywl_oopz.Music.Worker.{
  Round, take_or_release, finish_attempt, abandon, settle, close_reserved, close_session,
  close_session-cases, rebuild_cycle, release_session, drained, release_voice, leave, loaded,
}

-- Other tasks only make requests.
abbrev pub OnlyRequests : Meanwhile → Type 0
OnlyRequests f = (s : MusicSession) → Requests s (f s)

pub record IsFair (e : Round) : Type 0 where
  pub resolving : OnlyRequests e.answers.while_resolving
  pub starting : OnlyRequests e.answers.while_starting
  pub locking : OnlyRequests e.answers.while_locking
  pub playing : OnlyRequests e.answers.while_playing
  pub recovering : OnlyRequests e.answers.while_recovering
  pub disposing : OnlyRequests e.while_disposing
  pub idle : OnlyRequests e.while_idle

-- Between two rounds no track is current.
pub record IsResting (s : MusicSession) : Type 0 where
  pub consistent : IsConsistent s
  pub no_current : s.current ≡ none
  pub no_playback : s.playback ≡ none

-- During an attempt a track is current, and the playback is the attempt's.
pub record IsAttempting (playback : Option ℕ) (s : MusicSession) : Type 0 where
  pub consistent : IsConsistent s
  pub has_current : is_some s.current ≡ true
  pub same : s.playback ≡ playback

module _ (f : Meanwhile) (quiet : OnlyRequests f) (s : MusicSession) where
  pub while-IsAttempting : (p : Option ℕ) → IsAttempting p s → IsAttempting p (f s)
  while-IsAttempting p a =
      let l = Requests-Leaves s (f s) (quiet s) a.consistent in
      record {
        consistent = l.consistent;
        has_current = rw l.current a.has_current;
        same = l.playback ∙ a.same;
      }

  pub while-IsResting : IsResting s → IsResting (f s)
  while-IsResting a =
      let l = Requests-Leaves s (f s) (quiet s) a.consistent in
      record {
        consistent = l.consistent;
        no_current = l.current ∙ a.no_current;
        no_playback = l.playback ∙ a.no_playback;
      }

rebuild-IsResting : (s : MusicSession) → IsResting s → IsResting (rebuild_cycle s)
unfolding rebuild_cycle
rebuild-IsResting s c = ground arith

take_next-fields :
    (rng : Rng) (s : MusicSession) (item : QueuedTrack) (t : MusicSession)
    → take_next rng s ≡ some (item, t)
    → t ≡ record s { queue = t.queue }
unfolding take_next
take_next-fields rng s item t h = elim (Option-cases (take_from rng s.policy s.queue)) [
  | inl e ↦ cc e
  | inr (p, e) ↦ ground arith
]

loaded-IsAttempting :
    (s : MusicSession) (item : QueuedTrack) (queue : List QueuedTrack)
    → IsResting s
    → IsAttempting none (loaded item (record s { queue = queue }))
loaded-IsAttempting s item queue c = ground arith

drained-IsResting :
    (released : Bool) (s : MusicSession) → IsResting s → IsResting (drained released s)
unfolding drained
drained-IsResting released s c = ground arith

bump-IsResting : (s : MusicSession) → IsResting s → IsResting (bump s)
bump-IsResting s c = ground arith

leave-IsResting : (me : ℕ) (s : MusicSession) → IsResting s → IsResting (leave me s)
leave-IsResting me s c = ground arith

release-IsResting :
    (me : ℕ) (returns : ℕ → Bool) (s : MusicSession)
    → IsResting s
    → IsResting (release_session me returns s)
release-IsResting me returns s c =
    let began : IsResting (bump (record s { current = none; state = PlaybackState.releasing })) =
      ground arith in
    unfold release_session in
    leave-IsResting me _ (bump-IsResting _ (drained-IsResting (release_voice returns) _ began))

abbrev pub Taken : Option QueuedTrack × MusicSession → Type 0
Taken (none, t) = IsResting t
Taken (some item, t) = IsAttempting none t

pub take-IsResting :
    (me : ℕ) (e : Round) (s : MusicSession)
    → IsResting s
    → Taken (take_or_release me e.rng e.returns s)
unfolding take_or_release
take-IsResting me e s c =
    let rest = rebuild-IsResting s c in
    elim (Option-cases (take_next e.rng (rebuild_cycle s))) [
      | inl empty ↦ rw empty (release-IsResting me e.returns (rebuild_cycle s) rest)
      | inr ((item, t), took) ↦ rw took (
          rw (take_next-fields e.rng (rebuild_cycle s) item t took)
            (loaded-IsAttempting (rebuild_cycle s) item t.queue rest))
    ]

pub finish-IsResting :
    (item : QueuedTrack) (a : PlaybackAttempt) (r : Run)
    → IsAttempting a.playback r.session
    → IsResting (finish_attempt item a r).session
unfolding finish_attempt
finish-IsResting item a r c = ground arith

abandon-IsResting : (me : ℕ) (s : MusicSession) → IsConsistent s → IsResting (abandon me s)
unfolding abandon
abandon-IsResting me s c = ground arith

settle-IsResting : (s : MusicSession) → IsResting s → IsResting (settle s)
unfolding settle
settle-IsResting s c = ground arith

close_reserved-IsResting :
    (released : Bool) (s : MusicSession) → IsResting s → IsResting (close_reserved released s)
unfolding close_reserved
close_reserved-IsResting released s c = ground arith

pub close-IsResting :
    (me : ℕ) (e : Round) (s : MusicSession)
    → IsConsistent s
    → IsResting (close_session me e.returns s)
close-IsResting me e s c =
    let settled = settle-IsResting (abandon me s) (abandon-IsResting me s c) in
    close_session-cases me e.returns s IsResting settled
      (λ released. close_reserved-IsResting released (settle (abandon me s)) settled)
