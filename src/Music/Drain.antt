-- ===== src/Music/Drain.antt =====
-- The worker's loop ends: with repeat off and nobody touching the queue, a worker needs at most
-- three rounds for each queued track, and one more to release the voice.
use cywl_oopz.Prelude.{
  ℕ, suc, ◌+◌, ◌*◌, ◌≤◌, ◌<◌, ◌≡◌, refl, sym, ap, ◌∙◌, inl, inr, Bool, true, false, List, [], ◌∷◌,
  arith, if_ind, Option-cases, length, All, nat_beq_iff, nat_eq,
}
use mathlib.Core.Path.{subst₂}
use cywl_oopz.Music.Models.{QueuedTrack, off}
use cywl_oopz.Music.Session.{MusicSession, take_next}
use cywl_oopz.Music.Attempt.{play_attempt}
use cywl_oopz.Music.Prepare.{Run, PlaybackAttempt}
use cywl_oopz.Music.Worker.{
  Round, Progress, running, ended, take_or_release, finish_attempt, loaded, conclude, round, run,
}
use cywl_oopz.Music.Calm.{
  SameQueue-trans, IsCalm, Counts, halts, retries_backend, retries_media, leaves, Effect,
  play_attempt-Effect,
}
use cywl_oopz.Music.Sums.{sum, take_next-sum}
use cywl_oopz.Music.Retries.{
  weight, load, has_id, IsDistinct, sum-weight, get-pop_ne, rebuild_cycle-off, Disposed, gone, back,
  finish-Disposed, weight-pos, sum-weight_backend, sum-weight_media, Counts-agree, sum-weight-le,
}

-- A run that may go on: repeat is off, and no two queued tracks share an identity.
pub record IsDraining (r : Run) : Type 0 where
  pub repeat_off : r.session.policy.repeat ≡ off
  pub distinct : IsDistinct r.session.queue

-- After a round the run has ended, or it goes on with less to do.
abbrev Shrinks : ℕ → Progress → Type 0
Shrinks n (ended s) = Unit
Shrinks n (running r) = IsDraining r × (load r < n)

module _ (item : QueuedTrack) (rest : List QueuedTrack)
    (distinct : (i : ℕ) → has_id i item + sum (has_id i) rest ≤ 1) where
  alone : sum (has_id item.id) rest ≡ 0
  alone = ground (arith, distinct item.id, nat_beq_iff item.id item.id)

  IsDistinct-rest : IsDistinct rest
  IsDistinct-rest i = omega (arith, distinct i)

  -- The run that a played and disposed track leaves.
  abbrev load_of : Run → ℕ
  load_of r = sum (weight r.backend_retries r.media_retries) (item ∷ rest)

  retried :
      (a : PlaybackAttempt) (r m : Run)
      → Counts item a r m
      → a.halt_after_failure ≡ false
      → a.retry_current ≡ true
      → sum (weight m.backend_retries m.media_retries) (item ∷ rest)
        < sum (weight r.backend_retries r.media_retries) (item ∷ rest)
  retried a r m (halts h) no_halt again = cc
  retried a r m (retries_backend h l p q) no_halt again =
      subst₂ (λ b k. sum (weight b k) (item ∷ rest) < load_of r) (sym p) (sym q)
        (sum-weight_backend item rest alone r.backend_retries r.media_retries l)
  retried a r m (retries_media h l p q) no_halt again =
      subst₂ (λ b k. sum (weight b k) (item ∷ rest) < load_of r) (sym p) (sym q)
        (sum-weight_media item rest alone r.backend_retries r.media_retries l)
  retried a r m (leaves h p q) no_halt again = cc

  Disposed-Shrinks :
      (a : PlaybackAttempt) (r m t : Run) (s : MusicSession)
      → m.session.queue ≡ rest
      → Counts item a r m
      → a.halt_after_failure ≡ false
      → Disposed item a m t
      → s.policy.repeat ≡ off
      → s.queue ≡ t.session.queue
      → Shrinks
          (sum (weight r.backend_retries r.media_retries) (item ∷ rest))
          (running (record t { session = s }))
  Disposed-Shrinks a r m t s qm counts no_halt (gone e p k) o q =
      let same = Counts-agree item a r m no_halt counts in
      let lighter =
        sum-weight item.id r.backend_retries r.media_retries t.backend_retries t.media_retries
          (λ j n. rw p (get-pop_ne m.backend_retries item.id j n ∙ (same j n).0))
          (λ j n. rw k (get-pop_ne m.media_retries item.id j n ∙ (same j n).1)) rest alone in
      let now : s.queue ≡ rest = q ∙ e ∙ qm in
      (
        record { repeat_off = o; distinct = rw now IsDistinct-rest },
        rw now
            (omega (arith, lighter, weight-pos item rest alone r.backend_retries r.media_retries)),
      )
  Disposed-Shrinks a r m t s qm counts no_halt (back again e p k) o q =
      let now : s.queue ≡ item ∷ rest = q ∙ e ∙ ap (λ l. item ∷ l) qm in
      (
        record { repeat_off = o; distinct = rw now distinct },
        rw now (
            subst₂ (λ b k. sum (weight b k) (item ∷ rest) < load_of r) (sym p) (sym k)
              (retried a r m counts no_halt again)),
      )

Counts-session :
    (item : QueuedTrack) (a : PlaybackAttempt) (r m : Run) (s : MusicSession)
    → Counts item a r m
    → Counts item a r (record m { session = s })
Counts-session item a r m s (halts h) = halts h
Counts-session item a r m s (retries_backend h l p q) = retries_backend h l p q
Counts-session item a r m s (retries_media h l p q) = retries_media h l p q
Counts-session item a r m s (leaves h p q) = leaves h p q

module _ (e : Round) (calm : IsCalm e) (me : ℕ) where
  conclude-Shrinks :
      (item : QueuedTrack) (began : Run) (played : Bool × PlaybackAttempt × Run)
      → began.session.policy.repeat ≡ off
      → began.session.skip_requested ≡ false
      → began.session.retain_skipped_for_cycle ≡ false
      → ((i : ℕ) → has_id i item + sum (has_id i) began.session.queue ≤ 1)
      → Effect item began played
      → Shrinks
          (sum (weight began.backend_retries began.media_retries) (item ∷ began.session.queue))
          (conclude me e item played)
  conclude-Shrinks item began (stop, a, m) o s k distinct (same, counts) =
      let disposing = e.while_disposing m.session in
      let r = record m { session = disposing } in
      let same' =
        SameQueue-trans began.session m.session disposing same (calm.disposing m.session) in
      let n : ℕ =
        sum (weight began.backend_retries began.media_retries) (item ∷ began.session.queue) in
      if_ind (Shrinks n) stop (λ _. tt)
        (λ _.
          if_ind (Shrinks n) a.halt_after_failure (λ _. tt)
            (λ no_halt.
              let t = finish_attempt item a r in
              let idle = calm.idle t.session in
              let (disposed, policy) =
                finish-Disposed item a r no_halt (rw same'.policy o) (same'.skip ∙ s)
                  (same'.retain ∙ k) in
              Disposed-Shrinks item began.session.queue distinct a began r t
                (e.while_idle t.session) same'.queue
                (Counts-session item a began m disposing counts) no_halt disposed
                (rw (idle.policy ∙ policy ∙ same'.policy) o) idle.queue))

  round-Shrinks : (r : Run) → IsDraining r → Shrinks (load r) (round me e r)
  unfolding round take_or_release
  round-Shrinks r d =
      let began = λ (item : QueuedTrack) (t : MusicSession). record r { session = loaded item t } in
      rw (rebuild_cycle-off r.session d.repeat_off)
        (elim (Option-cases (take_next e.rng r.session)) [
          | inl empty ↦ rw empty tt
          | inr ((item, t), took) ↦
              let (same, sums) = take_next-sum e.rng r.session item t took in
              rw took (
                rw (sums (weight r.backend_retries r.media_retries)) (
                  conclude-Shrinks item (began item t) (play_attempt item e.answers (began item t))
                    (ap (λ (u : MusicSession). u.policy.repeat) same ∙ d.repeat_off) refl refl
                    (λ i. rw (← sums (has_id i)) (d.distinct i))
                    (play_attempt-Effect e calm item (began item t))))
        ])

run_ends_within :
    (me : ℕ) (rounds : List Round) (p : Progress) (n : ℕ)
    → All IsCalm rounds
    → Shrinks n p
    → n ≤ length rounds
    → (s : MusicSession) × (run me rounds p ≡ ended s)
unfolding run
run_ends_within me [] (ended s) n calm shrinks h = (s, refl)
run_ends_within me (e ∷ rounds) (ended s) n calm shrinks h = (s, refl)
run_ends_within me [] (running r) n calm shrinks h = absurd (omega arith)
run_ends_within me (e ∷ rounds) (running r) n calm (d, less) h =
    run_ends_within me rounds (round me e r) (load r) calm.1 (round-Shrinks e calm.0 me r d)
      (omega arith)

-- With repeat off, distinct queued tracks and no request that touches the queue, a worker has ended
-- after more than three rounds for each queued track, whatever the backend answers.
pub run_ends :
    (me : ℕ) (rounds : List Round) (r : Run)
    → All IsCalm rounds
    → IsDraining r
    → 3 * length r.session.queue < length rounds
    → (s : MusicSession) × (run me rounds (running r) ≡ ended s)
run_ends me rounds r calm d h =
    run_ends_within me rounds (running r) (suc (load r)) calm (d, omega arith)
      (omega (arith, sum-weight-le r.backend_retries r.media_retries r.session.queue))
