-- ===== src/Music/Models.antt =====
-- The values of features/music/models.py that the queue works with. A track identity, which the
-- source draws by uuid4, is a number. MusicFailure.occurred_at, a time stamp, is left out.
use cywl_oopz.Prelude.{ℕ, Bool, true, false, ◌&&◌, List, Option, Result, ok, err, if◌then◌else◌}
use cywl_oopz.Prelude.Text.{Text}

pub data MusicSourceKind : Type 0 where
  netease youtube bilibili : MusicSourceKind

pub record VoiceChannelKey : Type 0 where
  pub area_id : Text
  pub channel_id : Text

pub record MusicTrack : Type 0 where
  pub source : MusicSourceKind
  pub source_id : Text
  pub title : Text
  pub artists : List Text
  pub duration_ms : Option ℕ

pub record QueuedTrack : Type 0 where
  pub track : MusicTrack
  pub requested_by : Text
  pub id : ℕ

pub data PlaybackState : Type 0 where
  idle waiting loading playing paused recovering releasing failed : PlaybackState

pub data PlaybackOrder : Type 0 where
  sequential shuffle : PlaybackOrder

pub data RepeatPolicy : Type 0 where
  off one all : RepeatPolicy

pub record MusicPlaybackPolicy : Type 0 where
  pub order : PlaybackOrder
  pub repeat : RepeatPolicy

abbrev pub default_policy : MusicPlaybackPolicy
default_policy = record { order = sequential; repeat = off }

abbrev pub is_shuffle : PlaybackOrder → Bool
is_shuffle shuffle = true
is_shuffle sequential = false

abbrev pub is_one : RepeatPolicy → Bool
is_one one = true
is_one _ = false

abbrev pub is_all : RepeatPolicy → Bool
is_all all = true
is_all _ = false

abbrev pub order_beq : PlaybackOrder → PlaybackOrder → Bool
order_beq sequential sequential = true
order_beq shuffle shuffle = true
order_beq _ _ = false

abbrev pub repeat_beq : RepeatPolicy → RepeatPolicy → Bool
repeat_beq off off = true
repeat_beq one one = true
repeat_beq all all = true
repeat_beq _ _ = false

pub data MusicPlaybackEndReason : Type 0 where
  finished stopped replaced track_error voice_left backend_closed : MusicPlaybackEndReason

pub data MusicFailureCode : Type 0 where
  track_error catalog_error voice_left backend_closed release_failed : MusicFailureCode

pub data MusicFailureScope : Type 0 where
  track catalog voice_session : MusicFailureScope

pub record MusicFailure : Type 0 where
  pub code : MusicFailureCode
  pub scope : MusicFailureScope
  pub recoverable : Bool
  pub track_id : Option ℕ
  pub retry_count : ℕ

-- duration_ms is duration_seconds in milliseconds; the terminal error is only logged.
pub record MusicPlaybackResult : Type 0 where
  pub end_reason : MusicPlaybackEndReason
  pub duration_ms : Option ℕ

pub record EnqueueResult : Type 0 where
  pub voice_channel : VoiceChannelKey
  pub item : QueuedTrack
  pub position : ℕ
  pub started_worker : Bool

pub record PlaybackPolicyChange : Type 0 where
  pub voice_channel : VoiceChannelKey
  pub policy : MusicPlaybackPolicy
  pub changed : Bool

pub record QueueRebuildResult : Type 0 where
  pub voice_channel : VoiceChannelKey
  pub loaded_count : ℕ
  pub replaced_current : Bool
  pub started_worker : Bool

pub record MusicQueueClearResult : Type 0 where
  pub voice_channel : VoiceChannelKey
  pub stopped_current : Bool
  pub removed_count : ℕ

pub record MusicQueueSnapshot : Type 0 where
  pub voice_channel : VoiceChannelKey
  pub state : PlaybackState
  pub policy : MusicPlaybackPolicy
  pub current : Option QueuedTrack
  pub upcoming : List QueuedTrack
  pub cycle_completed_count : ℕ
  pub revision : ℕ
  pub last_failure : Option MusicFailure

-- The exceptions of features/music/errors.py, and the RuntimeError of a closing service.
pub data MusicError : Type 0 where
  music_query music_queue_full music_voice_busy music_playback service_closing : MusicError

-- MusicPlaybackPolicy.__post_init__, whose ValueError the service turns into MusicQueryError.
unfoldable pub make_policy : PlaybackOrder → RepeatPolicy → Result MusicError MusicPlaybackPolicy
make_policy order repeat =
    if is_shuffle order && is_one repeat
    then err music_query
    else ok (record { order = order; repeat = repeat })
