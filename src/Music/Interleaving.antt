-- ===== src/Music/Interleaving.antt =====
-- The requests that other tasks make while the worker awaits, in any number and order.
use cywl_oopz.Prelude.{ℕ, ◌≡◌, refl, ◌∙◌, List, Option, true}
use cywl_oopz.Prelude.Text.{Text}
use cywl_oopz.Music.Models.{VoiceChannelKey, QueuedTrack, PlaybackOrder, RepeatPolicy}
use cywl_oopz.Music.Session.{MusicSession}
use cywl_oopz.Music.Requests.{Surroundings, Acquire, enqueue}
use cywl_oopz.Music.Controls.{set_policy, replace_queue, clear, skip, commit_pause, commit_resume}
use cywl_oopz.Music.Consistency.{
  IsConsistent, Leaves, enqueue-Leaves, set_policy-Leaves, replace_queue-Leaves, clear-Leaves,
  skip-Leaves, commit_pause-Leaves, commit_resume-Leaves,
}

pub data Request (s t : MusicSession) : Type 0 where
  enqueues :
      (limit : ℕ) (env : Surroundings) (channel : VoiceChannelKey) (key : Text) (item : QueuedTrack)
      → t ≡ (enqueue limit env channel key item s).1
      → Request s t
  sets_policy :
      (channel : VoiceChannelKey) (order : Option PlaybackOrder) (repeat : Option RepeatPolicy)
      → t ≡ (set_policy channel order repeat s).1
      → Request s t
  replaces :
      (limit : ℕ) (env : Surroundings) (channel : VoiceChannelKey) (items : List QueuedTrack)
      → t ≡ (replace_queue limit env channel items s).1
      → Request s t
  clears :
      (env : Surroundings) (channel : VoiceChannelKey) → t ≡ (clear env channel s).1 → Request s t
  skips : t ≡ (skip s).1 → Request s t
  pauses : (playback : ℕ) → t ≡ commit_pause playback s → Request s t
  resumes : (playback : ℕ) → t ≡ commit_resume playback s → Request s t

pub data Requests (s : MusicSession) : MusicSession → Type 0 where
  here : Requests s s
  next : {t u : MusicSession} → Requests s t → Request t u → Requests s u

no_env : Surroundings
no_env = record { closing = true; acquire = Acquire.raised; closing_later = true; worker_id = 0 }

Request-Leaves : (s t : MusicSession) → Request s t → IsConsistent s → Leaves s t
Request-Leaves s t (enqueues limit env channel key item e) c =
    rw e (enqueue-Leaves env c limit channel key item)
Request-Leaves s t (sets_policy channel order repeat e) c =
    rw e (set_policy-Leaves no_env c channel order repeat)
Request-Leaves s t (replaces limit env channel items e) c =
    rw e (replace_queue-Leaves env c limit channel items)
Request-Leaves s t (clears env channel e) c = rw e (clear-Leaves env c channel)
Request-Leaves s t (skips e) c = rw e (skip-Leaves no_env c)
Request-Leaves s t (pauses playback e) c = rw e (commit_pause-Leaves no_env c playback)
Request-Leaves s t (resumes playback e) c = rw e (commit_resume-Leaves no_env c playback)

-- Whatever requests are made of a consistent session, it stays consistent, and none of them
-- changes its current track or its playback.
pub Requests-Leaves : (s t : MusicSession) → Requests s t → IsConsistent s → Leaves s t
Requests-Leaves s t here c = record { consistent = c; current = refl; playback = refl }
Requests-Leaves s u (next {t} r q) c =
    let before = Requests-Leaves s t r c in
    let after = Request-Leaves t u q before.consistent in
    record {
      consistent = after.consistent;
      current = after.current ∙ before.current;
      playback = after.playback ∙ before.playback;
    }
