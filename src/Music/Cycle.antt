-- ===== src/Music/Cycle.antt =====
-- The cycle of repeat ALL in features/music/playback.py: the tracks that were played, in their order,
-- and then those still queued.
use cywl_oopz.Prelude.{
  ℕ, ◌≡◌, refl, ap, ◌∙◌, inl, inr, Bool, true, ◌||◌, List, [], ◌∷◌, ◌++◌, some, arith,
  if◌then◌else◌, Bool-cases, Option-cases,
}
use mathlib.Core.List.{append_assoc, append-nil}
use cywl_oopz.Music.Models.{QueuedTrack, MusicPlaybackPolicy, sequential, all}
use cywl_oopz.Music.Session.{MusicSession, Rng, take_next, take_from}
use cywl_oopz.Music.Session.Deque.{popleft}
use cywl_oopz.Music.Prepare.{Run, PlaybackAttempt}
use cywl_oopz.Music.Worker.{take_or_release, rebuild_cycle, finish_attempt, is_empty}

abbrev pub cycle_of : MusicSession → List QueuedTrack
cycle_of s = s.cycle_history ++ s.queue

empty_nil : (q : List QueuedTrack) → is_empty q ≡ true → q ≡ []
empty_nil [] h = refl
empty_nil (x ∷ q) h = cc

cycle_of-rebuild_cycle : (s : MusicSession) → cycle_of (rebuild_cycle s) ≡ cycle_of s
unfolding rebuild_cycle
cycle_of-rebuild_cycle s = elim (Bool-cases (is_empty s.queue)) [
  | inl e ↦ ground (arith, append-nil s.cycle_history, empty_nil s.queue)
  | inr e ↦ rw e refl
]

policy-rebuild_cycle : (s : MusicSession) → (rebuild_cycle s).policy ≡ s.policy
unfolding rebuild_cycle
policy-rebuild_cycle s = ground arith

take_next-sequential :
    (rng : Rng) (s t : MusicSession) (item : QueuedTrack)
    → s.policy.order ≡ sequential
    → take_next rng s ≡ some (item, t)
    → (s.queue ≡ item ∷ t.queue) × (t.cycle_history ≡ s.cycle_history)
unfolding take_next take_from popleft
take_next-sequential rng s t item o h = elim (Option-cases (popleft s.queue)) [
  | inl e ↦ absurd (ground arith)
  | inr ((x, rest), e) ↦ (ground arith, ground arith)
]

cycle_of-take :
    (me : ℕ) (rng : Rng) (returns : ℕ → Bool) (s t : MusicSession) (item : QueuedTrack)
    → s.policy.order ≡ sequential
    → take_or_release me rng returns s ≡ (some item, t)
    → t.cycle_history ++ item ∷ t.queue ≡ cycle_of s
unfolding take_or_release
cycle_of-take me rng returns s t item o h = elim (Option-cases (take_next rng (rebuild_cycle s))) [
  | inl e ↦ absurd (ground arith)
  | inr ((x, u), e) ↦
      let (q, k) =
        take_next-sequential rng (rebuild_cycle s) u x
          (ap (λ (p : MusicPlaybackPolicy). p.order) (policy-rebuild_cycle s) ∙ o) e in
      ground (arith, cycle_of-rebuild_cycle s)
]

cycle_of-finish :
    (item : QueuedTrack) (a : PlaybackAttempt) (r : Run)
    → r.session.policy.repeat ≡ all
    → (if r.session.skip_requested
        then r.session.retain_skipped_for_cycle
        else (a.completed || a.retry_current || a.halt_after_failure))
      ≡ true
    → cycle_of (finish_attempt item a r).session ≡ r.session.cycle_history ++ item ∷ r.session.queue
unfolding finish_attempt
cycle_of-finish item a r p k =
    ground (arith, append_assoc r.session.cycle_history (item ∷ []) r.session.queue)

-- Repeating everything in order, a track that is taken and then completed, retried, halted or,
-- if it was skipped, retained keeps its place in the cycle where no request touches the queue
-- meanwhile: nothing is lost, doubled or moved, over the rebuilding of the cycle too.
pub cycle_of-round :
    (me : ℕ) (rng : Rng) (returns : ℕ → Bool) (s t : MusicSession) (item : QueuedTrack)
    (a : PlaybackAttempt) (r : Run)
    → s.policy.order ≡ sequential
    → take_or_release me rng returns s ≡ (some item, t)
    → r.session.queue ≡ t.queue
    → r.session.cycle_history ≡ t.cycle_history
    → r.session.policy.repeat ≡ all
    → (if r.session.skip_requested
        then r.session.retain_skipped_for_cycle
        else (a.completed || a.retry_current || a.halt_after_failure))
      ≡ true
    → cycle_of (finish_attempt item a r).session ≡ cycle_of s
cycle_of-round me rng returns s t item a r o h q c p k =
    cycle_of-finish item a r p k
    ∙ ap (λ l. l ++ item ∷ r.session.queue) c
    ∙ ap (λ l. t.cycle_history ++ item ∷ l) q
    ∙ cycle_of-take me rng returns s t item o h
