-- ===== src/Music/Retries.antt =====
-- The retries that a track has left weigh it, and _finish_attempt of features/music/playback.py makes
-- the queue lighter.
use cywl_oopz.Prelude.{
  ℕ, ◌+◌, ◌-◌, ◌*◌, ◌≤◌, ◌<◌, ◌≡◌, refl, inl, inr, true, false, List, [], ◌∷◌, arith, if◌then◌else◌,
  Bool-cases, length, nat_beq, nat_beq_iff, nat_eq,
}
use cywl_oopz.Prelude.Dict.{Dict, get, put, pop, get-put, get-pop}
use cywl_oopz.Music.Models.{QueuedTrack, off}
use cywl_oopz.Music.Session.{MusicSession}
use cywl_oopz.Music.Attempt.{count_retry}
use cywl_oopz.Music.Prepare.{Run, PlaybackAttempt, retries}
use cywl_oopz.Music.Worker.{rebuild_cycle, finish_attempt}
use cywl_oopz.Music.Calm.{Counts, halts, retries_backend, retries_media, leaves}
use cywl_oopz.Music.Sums.{sum}

unfoldable pub weight : Dict ℕ ℕ → Dict ℕ ℕ → QueuedTrack → ℕ
weight b m item = 1 + (1 - retries b item) + (1 - retries m item)

-- The rounds that a run may still need.
abbrev pub load : Run → ℕ
load r = sum (weight r.backend_retries r.media_retries) r.session.queue

abbrev pub has_id : ℕ → QueuedTrack → ℕ
has_id i item = if nat_beq item.id i then 1 else 0

-- No two queued tracks have one identity.
abbrev pub IsDistinct : List QueuedTrack → Type 0
IsDistinct q = (i : ℕ) → sum (has_id i) q ≤ 1

-- Counts that agree but at one identity weigh a queue without it alike.
pub sum-weight :
    (i : ℕ) (b m b' m' : Dict ℕ ℕ)
    → ((j : ℕ) → nat_beq i j ≡ false → get b' j ≡ get b j)
    → ((j : ℕ) → nat_beq i j ≡ false → get m' j ≡ get m j)
    → (q : List QueuedTrack) → sum (has_id i) q ≡ 0
    → sum (weight b' m') q ≡ sum (weight b m) q
unfolding weight
sum-weight i b m b' m' hb hm [] z = refl
sum-weight i b m b' m' hb hm (x ∷ q) z = ground (
  arith,
  hb x.id,
  hm x.id,
  sum-weight i b m b' m' hb hm q,
  nat_beq_iff x.id i,
  nat_beq_iff i x.id,
)

pub get-pop_ne : (d : Dict ℕ ℕ) (i j : ℕ) → nat_beq i j ≡ false → get (pop d i) j ≡ get d j
get-pop_ne d i j h = rw get-pop (rw h)

get-put_ne : (d : Dict ℕ ℕ) (i v j : ℕ) → nat_beq i j ≡ false → get (put d i v) j ≡ get d j
get-put_ne d i v j h = rw get-put (rw h)

retries-count_retry :
    (d : Dict ℕ ℕ) (item : QueuedTrack) → retries (count_retry d item) item ≡ retries d item + 1
retries-count_retry d item = rw get-put (rw ((nat_beq_iff item.id item.id).1 refl))

pub rebuild_cycle-off : (s : MusicSession) → s.policy.repeat ≡ off → rebuild_cycle s ≡ s
unfolding rebuild_cycle
rebuild_cycle-off s o = ground arith

-- What finish_attempt leaves of a track that was not skipped and whose attempt did not halt.
pub data Disposed (item : QueuedTrack) (a : PlaybackAttempt) (r t : Run) : Type 0 where
  gone :
      t.session.queue ≡ r.session.queue
      → t.backend_retries ≡ pop r.backend_retries item.id
      → t.media_retries ≡ pop r.media_retries item.id
      → Disposed item a r t
  back :
      a.retry_current ≡ true
      → t.session.queue ≡ item ∷ r.session.queue
      → t.backend_retries ≡ r.backend_retries
      → t.media_retries ≡ r.media_retries
      → Disposed item a r t

pub finish-Disposed :
    (item : QueuedTrack) (a : PlaybackAttempt) (r : Run)
    → a.halt_after_failure ≡ false
    → r.session.policy.repeat ≡ off
    → r.session.skip_requested ≡ false
    → r.session.retain_skipped_for_cycle ≡ false
    → Disposed item a r (finish_attempt item a r)
      × ((finish_attempt item a r).session.policy ≡ r.session.policy)
unfolding finish_attempt
finish-Disposed item a r h o s k = elim (Bool-cases a.completed) [
  | inl done ↦ (gone (ground arith) (ground arith) (ground arith), ground arith)
  | inr more ↦ elim (Bool-cases a.retry_current) [
    | inl again ↦ (back again (ground arith) (ground arith) (ground arith), ground arith)
    | inr not_again ↦ (gone (ground arith) (ground arith) (ground arith), ground arith)
  ]
]

-- A round's track and the rest of the queue, weighed before and after.
module _ (item : QueuedTrack) (rest : List QueuedTrack) (alone : sum (has_id item.id) rest ≡ 0)
    (b m : Dict ℕ ℕ) where
  pub weight-pos : 1 ≤ weight b m item
  unfolding weight
  weight-pos = omega arith

  sum-weight_gone : sum (weight (pop b item.id) (pop m item.id)) rest ≡ sum (weight b m) rest
  sum-weight_gone =
      sum-weight item.id b m (pop b item.id) (pop m item.id) (get-pop_ne b item.id)
        (get-pop_ne m item.id) rest alone

  weight_backend : retries b item < 1 → weight (count_retry b item) m item < weight b m item
  unfolding weight
  weight_backend h = omega (arith, retries-count_retry b item)

  weight_media : retries m item < 1 → weight b (count_retry m item) item < weight b m item
  unfolding weight
  weight_media h = omega (arith, retries-count_retry m item)

  pub sum-weight_backend :
      retries b item < 1
      → sum (weight (count_retry b item) m) (item ∷ rest) < sum (weight b m) (item ∷ rest)
  sum-weight_backend h =
      let v = retries b item + 1 in
      omega (
        arith,
        weight_backend h,
        sum-weight item.id b m (put b item.id v) m (get-put_ne b item.id v) (λ j _. refl) rest
            alone,
      )

  pub sum-weight_media :
      retries m item < 1
      → sum (weight b (count_retry m item)) (item ∷ rest) < sum (weight b m) (item ∷ rest)
  sum-weight_media h =
      let v = retries m item + 1 in
      omega (
        arith,
        weight_media h,
        sum-weight item.id b m b (put m item.id v) (λ j _. refl) (get-put_ne m item.id v) rest
            alone,
      )

-- An attempt that does not halt changes the counts of its own track alone.
pub Counts-agree :
    (item : QueuedTrack) (a : PlaybackAttempt) (r m : Run)
    → a.halt_after_failure ≡ false
    → Counts item a r m
    → (j : ℕ) → nat_beq item.id j ≡ false
    → (get m.backend_retries j ≡ get r.backend_retries j)
      × (get m.media_retries j ≡ get r.media_retries j)
Counts-agree item a r m no_halt (halts h) j n = cc
Counts-agree item a r m no_halt (retries_backend h l p q) j n =
    (rw p (get-put_ne r.backend_retries item.id (retries r.backend_retries item + 1) j n), rw q)
Counts-agree item a r m no_halt (retries_media h l p q) j n =
    (rw p, rw q (get-put_ne r.media_retries item.id (retries r.media_retries item + 1) j n))
Counts-agree item a r m no_halt (leaves h p q) j n = (rw p, rw q)

pub sum-weight-le : (b m : Dict ℕ ℕ) (q : List QueuedTrack) → sum (weight b m) q ≤ 3 * length q
unfolding weight
sum-weight-le b m [] = omega arith
sum-weight-le b m (x ∷ q) = omega (arith, sum-weight-le b m q)
