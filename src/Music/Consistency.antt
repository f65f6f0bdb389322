-- ===== src/Music/Consistency.antt =====
-- The invariant of a session, which every request section of features/music/service.py keeps.
use cywl_oopz.Prelude.{
  ℕ, ◌≤◌, ◌≡◌, Bool, true, false, not, ◌&&◌, ◌||◌, List, [], ◌∷◌, ◌++◌, ◌+◌, Option, none, arith,
  is_some, length, ok, nat_eq, list_eq,
}
use cywl_oopz.Prelude.Text.{Text}
use cywl_oopz.Prelude.Dict.{Dict, put}
use cywl_oopz.Music.Models.{
  VoiceChannelKey, QueuedTrack, EnqueueResult, PlaybackOrder, RepeatPolicy, is_shuffle, is_one,
}
use cywl_oopz.Music.Session.{MusicSession, new_session}
use cywl_oopz.Music.Requests.{
  Surroundings, max_idempotent, evict, remember, reserve_voice, enqueue, current_count,
}
use cywl_oopz.Music.Controls.{set_policy, replace_queue, clear, skip, commit_pause, commit_resume}

pub record IsConsistent (s : MusicSession) : Type 0 where
  pub policy_valid : is_shuffle s.policy.order && is_one s.policy.repeat ≡ false
  pub skip_current : not s.skip_requested || is_some s.current ≡ true
  pub retain_skip : not s.retain_skipped_for_cycle || s.skip_requested ≡ true
  pub remembered : length s.idempotent_enqueues ≤ max_idempotent
  pub playback_current : not (is_some s.playback) || is_some s.current ≡ true

-- What a request leaves to the worker.
pub record Leaves (s t : MusicSession) : Type 0 where
  pub consistent : IsConsistent t
  pub current : t.current ≡ s.current
  pub playback : t.playback ≡ s.playback

pub IsConsistent-new_session : IsConsistent new_session
IsConsistent-new_session = ground arith

length-evict : (entries : Dict Text EnqueueResult) → length (evict entries) ≤ max_idempotent
unfolding evict
length-evict [] = omega arith
length-evict (e ∷ entries) = ground (arith, length-evict entries)

remember-Leaves :
    (key : Text) (result : EnqueueResult) (s : MusicSession)
    → IsConsistent s
    → Leaves s (remember key result s)
unfolding remember
remember-Leaves key result s c = ground (arith, length-evict (put s.idempotent_enqueues key result))

abbrev new_result : VoiceChannelKey → QueuedTrack → MusicSession → Bool → EnqueueResult
new_result channel item s started = record {
  voice_channel = channel;
  item = item;
  position = length (s.queue ++ item ∷ []) + current_count s;
  started_worker = started;
}

module _ (env : Surroundings) {s : MusicSession} (c : IsConsistent s) where
  reserve-Leaves : (t : MusicSession) → reserve_voice env s ≡ ok t → Leaves s t
  unfolding reserve_voice
  reserve-Leaves t h = ground arith

  pub enqueue-Leaves :
      (limit : ℕ) (channel : VoiceChannelKey) (key : Text) (item : QueuedTrack)
      → Leaves s (enqueue limit env channel key item s).1
  unfolding enqueue
  enqueue-Leaves limit channel key item =
      let kept = λ (started : Bool).
        length-evict (put s.idempotent_enqueues key (new_result channel item s started)) in
      ground (arith, kept true, kept false)

  pub set_policy-Leaves :
      (channel : VoiceChannelKey) (order : Option PlaybackOrder) (repeat : Option RepeatPolicy)
      → Leaves s (set_policy channel order repeat s).1
  unfolding set_policy
  set_policy-Leaves channel none none = ground arith
  set_policy-Leaves channel order repeat = ground arith

  pub replace_queue-Leaves :
      (limit : ℕ) (channel : VoiceChannelKey) (items : List QueuedTrack)
      → Leaves s (replace_queue limit env channel items s).1
  unfolding replace_queue
  replace_queue-Leaves limit channel [] = ground arith
  replace_queue-Leaves limit channel (item ∷ rest) = ground arith

  pub clear-Leaves : (channel : VoiceChannelKey) → Leaves s (clear env channel s).1
  unfolding clear
  clear-Leaves channel = ground arith

  pub skip-Leaves : Leaves s (skip s).1
  unfolding skip
  skip-Leaves = ground arith

  pub commit_pause-Leaves : (playback : ℕ) → Leaves s (commit_pause playback s)
  unfolding commit_pause
  commit_pause-Leaves playback = ground arith

  pub commit_resume-Leaves : (playback : ℕ) → Leaves s (commit_resume playback s)
  unfolding commit_resume
  commit_resume-Leaves playback = ground arith
