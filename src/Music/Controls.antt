-- ===== src/Music/Controls.antt =====
-- The requests of features/music/service.py that control a queue, one section under session.lock
-- each, as in Music/Requests.antt.
use cywl_oopz.Prelude.{
  ℕ, ◌+◌, Bool, true, false, not, ◌&&◌, List, [], ◌∷◌, Option, none, some, if◌then◌else◌, ltb,
  length, is_some, option_or, Result, ok, err, nat_beq,
}
use cywl_oopz.Music.Models.{
  VoiceChannelKey, QueuedTrack, PlaybackState, MusicPlaybackPolicy, PlaybackPolicyChange,
  QueueRebuildResult, MusicQueueClearResult, MusicError, music_query, music_queue_full,
  PlaybackOrder, RepeatPolicy, order_beq, repeat_beq, is_all, make_policy, default_policy,
}
use cywl_oopz.Music.Session.{MusicSession, cancel_resolve, bump}
use cywl_oopz.Music.Requests.{Surroundings, reserve_voice, start_worker}

abbrev policy_beq : MusicPlaybackPolicy → MusicPlaybackPolicy → Bool
policy_beq p q = order_beq p.order q.order && repeat_beq p.repeat q.repeat

abbrev apply_policy :
    VoiceChannelKey
    → MusicSession
    → Result MusicError MusicPlaybackPolicy
    → Result MusicError PlaybackPolicyChange × MusicSession
apply_policy channel s (err e) = (err e, s)
apply_policy channel s (ok policy) =
    let changed = not (policy_beq s.policy policy) in
    (
      ok (record { voice_channel = channel; policy = policy; changed = changed }),
      if changed then record s { policy = policy; revision = s.revision + 1 } else s,
    )

-- set_policy
unfoldable pub set_policy :
    VoiceChannelKey
    → Option PlaybackOrder
    → Option RepeatPolicy
    → MusicSession
    → Result MusicError PlaybackPolicyChange × MusicSession
unfolding make_policy
set_policy channel none none s = (err music_query, s)
set_policy channel order repeat s =
    apply_policy channel s
      (make_policy (option_or order s.policy.order) (option_or repeat s.policy.repeat))

-- A current track that gives way: skip_requested.set() and cancel_resolve(), retained or not.
abbrev pub interrupt : Bool → MusicSession → MusicSession
interrupt retain s =
    cancel_resolve (record s { retain_skipped_for_cycle = retain; skip_requested = true })

-- The session of replace_queue from its second write up to the start of a worker.
abbrev pub rebuilt : List QueuedTrack → MusicSession → MusicSession
rebuilt items s =
    let cleared = record s {
      queue = items;
      cycle_history = [];
      idempotent_enqueues = [];
      last_failure = none;
    } in
    bump (
      if is_some s.current
      then interrupt false cleared
      else record cleared { state = PlaybackState.waiting })

abbrev replace_started :
    VoiceChannelKey
    → List QueuedTrack
    → MusicSession
    → Result MusicError (Bool × MusicSession)
    → Result MusicError (QueueRebuildResult × Option ℕ) × MusicSession
replace_started channel items s (err e) = (err e, s)
replace_started channel items s (ok (started, s')) = (
  ok (
    record {
      voice_channel = channel;
      loaded_count = length items;
      replaced_current = is_some s.current;
      started_worker = started;
    },
    if is_some s.current then s.playback else none,
  ),
  s',
)

abbrev replace_reserved :
    Surroundings
    → VoiceChannelKey
    → List QueuedTrack
    → MusicSession
    → Result MusicError MusicSession
    → Result MusicError (QueueRebuildResult × Option ℕ) × MusicSession
replace_reserved env channel items s (err e) = (err e, s)
replace_reserved env channel items s (ok s') =
    replace_started channel items (rebuilt items s') (start_worker env (rebuilt items s'))

-- replace_queue: its result, with the playback that it stops after the lock.
unfoldable pub replace_queue :
    ℕ
    → Surroundings
    → VoiceChannelKey
    → List QueuedTrack
    → MusicSession
    → Result MusicError (QueueRebuildResult × Option ℕ) × MusicSession
unfolding reserve_voice start_worker
replace_queue max_queue_length env channel [] s = (err music_query, s)
replace_queue max_queue_length env channel (item ∷ rest) s =
    if ltb max_queue_length (length (item ∷ rest))
    then (err music_queue_full, s)
    else replace_reserved env channel (item ∷ rest) s (reserve_voice env s)

-- The session of clear, before it decides on the current track.
abbrev pub emptied : MusicSession → MusicSession
emptied s = record s {
  queue = [];
  cycle_history = [];
  idempotent_enqueues = [];
  policy = default_policy;
  last_failure = none;
}

abbrev clear_started :
    MusicQueueClearResult
    → MusicSession
    → Result MusicError (Bool × MusicSession)
    → Result MusicError (MusicQueueClearResult × Option ℕ) × MusicSession
clear_started result s (err e) = (err e, s)
clear_started result s (ok (started, s')) = (ok (result, none), bump s')

abbrev clear_with :
    Surroundings
    → MusicQueueClearResult
    → MusicSession
    → Result MusicError (MusicQueueClearResult × Option ℕ) × MusicSession
clear_with env result s =
    if result.stopped_current
    then (ok (result, s.playback), bump (interrupt false s))
    else if s.voice_reserved
    then clear_started result (record s { state = PlaybackState.waiting })
        (start_worker env (record s { state = PlaybackState.waiting }))
    else (ok (result, none), bump (record s { state = PlaybackState.idle }))

-- clear: its result, with the playback that it stops after the lock.
unfoldable pub clear :
    Surroundings
    → VoiceChannelKey
    → MusicSession
    → Result MusicError (MusicQueueClearResult × Option ℕ) × MusicSession
unfolding start_worker
clear env channel s =
    let stopped = is_some s.current && not s.skip_requested in
    clear_with env
      (record {
        voice_channel = channel;
        stopped_current = stopped;
        removed_count = length s.queue + length s.cycle_history + (if stopped then 1 else 0);
      })
      (emptied s)

-- skip: whether a track was current, with the playback that it stops after the lock.
unfoldable pub skip : MusicSession → (Bool × Option ℕ) × MusicSession
skip s =
    if is_some s.current
    then ((true, s.playback), bump (interrupt (is_all s.policy.repeat) s))
    else ((false, none), s)

abbrev pub is_playing : PlaybackState → Bool
is_playing PlaybackState.playing = true
is_playing _ = false

abbrev pub is_paused : PlaybackState → Bool
is_paused PlaybackState.paused = true
is_paused _ = false

-- The first section of pause: the playback that it will pause.
unfoldable pub pause_target : MusicSession → Option ℕ
pause_target s = if is_playing s.state then s.playback else none

-- The first section of resume.
unfoldable pub resume_target : MusicSession → Option ℕ
resume_target s = if is_paused s.state then s.playback else none

abbrev pub is_handle : Option ℕ → ℕ → Bool
is_handle none h = false
is_handle (some p) h = nat_beq p h

-- The second section of pause, once the backend has paused the playback.
unfoldable pub commit_pause : ℕ → MusicSession → MusicSession
commit_pause playback s =
    if is_handle s.playback playback then bump (record s { state = PlaybackState.paused }) else s

-- The second section of resume, once the backend has resumed the playback.
unfoldable pub commit_resume : ℕ → MusicSession → MusicSession
commit_resume playback s =
    if is_handle s.playback playback then bump (record s { state = PlaybackState.playing }) else s
