-- ===== src/Music/Enqueue.antt =====
-- What enqueue of features/music/service.py promises to its caller.
use cywl_oopz.Prelude.{
  ℕ, ◌+◌, ◌≤◌, ◌≡◌, refl, true, false, [], ◌∷◌, ◌++◌, none, some, arith, length, length-append, ok,
  err, ==_refl, nat_eq, list_eq,
}
use cywl_oopz.Prelude.Text.{Text}
use cywl_oopz.Prelude.Dict.{Dict, get, put}
use cywl_oopz.Music.Models.{VoiceChannelKey, QueuedTrack, EnqueueResult, MusicError}
use cywl_oopz.Music.Session.{MusicSession}
use cywl_oopz.Music.Requests.{
  Surroundings, evict, is_given, is_running, current_count, enqueue_known, enqueue,
}

get_tail :
    (e : Text × EnqueueResult) (d : Dict Text EnqueueResult) (k : Text)
    → get (e ∷ d) k ≡ none
    → get d k ≡ none
unfolding get
get_tail (j, v) d k h = ground arith

put_absent :
    (d : Dict Text EnqueueResult) (k : Text) (v : EnqueueResult)
    → get d k ≡ none
    → put d k v ≡ d ++ (k, v) ∷ []
unfolding get put
put_absent [] k v h = refl
put_absent ((j, w) ∷ d) k v h = ground (arith, put_absent d k v)

get-snoc :
    (d : Dict Text EnqueueResult) (k : Text) (v : EnqueueResult)
    → get d k ≡ none
    → get (d ++ (k, v) ∷ []) k ≡ some v
unfolding get
get-snoc [] k v h = rw (==_refl k)
get-snoc ((j, w) ∷ d) k v h = ground (arith, get-snoc d k v)

-- The newest entry is never the one that is evicted.
get-evict :
    (d : Dict Text EnqueueResult) (k : Text) (v : EnqueueResult)
    → get d k ≡ none
    → get (evict (d ++ (k, v) ∷ [])) k ≡ some v
unfolding evict
get-evict [] k v h = get-snoc [] k v h
get-evict (e ∷ d) k v h = ground (arith, get-snoc (e ∷ d) k v h, get-evict d k v (get_tail e d k h))

remembered :
    (d : Dict Text EnqueueResult) (k : Text) (v : EnqueueResult)
    → get d k ≡ none
    → get (evict (put d k v)) k ≡ some v
remembered d k v h = rw (put_absent d k v h) (get-evict d k v h)

module _ (limit : ℕ) (env : Surroundings) (channel : VoiceChannelKey) (key : Text)
    (item : QueuedTrack) (s t : MusicSession) where
  known_after :
      (r : EnqueueResult)
      → is_given key ≡ true
      → enqueue limit env channel key item s ≡ (ok r, t)
      → get t.idempotent_enqueues key ≡ some r
  unfolding enqueue
  known_after r g h = ground (arith, remembered s.idempotent_enqueues key r)

  -- A request that succeeded under a nonempty key and comes again with that key, in the session
  -- that it left, has its first result again and changes nothing, whatever else it carries and
  -- whatever the backend then does.
  pub enqueue-idempotent :
      (r : EnqueueResult) (limit' : ℕ) (env' : Surroundings) (channel' : VoiceChannelKey)
      (item' : QueuedTrack)
      → is_given key ≡ true
      → enqueue limit env channel key item s ≡ (ok r, t)
      → enqueue limit' env' channel' key item' t ≡ (ok r, t)
  enqueue-idempotent r limit' env' channel' item' g h =
      let known = known_after r g h in unfold enqueue enqueue_known in rw (g, known)

  -- A request that succeeds, and whose key is not remembered, puts its track last, reports that
  -- place, stays within the limit, has the voice reserved and leaves a worker running.
  pub enqueue-appends :
      (r : EnqueueResult)
      → enqueue_known key s ≡ none
      → enqueue limit env channel key item s ≡ (ok r, t)
      → (t.queue ≡ s.queue ++ item ∷ [])
        × (r.position ≡ length t.queue + current_count t)
        × (length t.queue + current_count t ≤ limit)
        × (t.voice_reserved ≡ true)
        × (is_running t.worker ≡ true)
  unfolding enqueue
  enqueue-appends r n h = ground (arith, length-append s.queue (item ∷ []))

  -- A request that fails leaves the session as it was, unless the service begins to close while
  -- the voice is being acquired.
  pub enqueue-err :
      (x : MusicError)
      → env.closing_later ≡ false
      → enqueue limit env channel key item s ≡ (err x, t)
      → t ≡ s
  unfolding enqueue
  enqueue-err x n h = ground arith
