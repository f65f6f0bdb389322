-- ===== src/Audio/Slices.antt =====
-- The values of features/audio/models.py that the playout ledger keeps: slices of a source, and
-- the cursors of the master output and of a source. A stereo frame, which nothing here reads, is
-- a number.
use cywl_oopz.Prelude.{
  ℕ, ◌+◌, ◌-◌, ◌*◌, ◌/◌, ◌≡◌, ◌↔◌, Bool, true, ◌&&◌, Option, none, some, List, arith, ltb, leb,
  nat_beq, nat_eq, Eq, length, drop, if◌then◌else◌, Result, ok, ◌>>=◌, ◌>>◌, raise_if,
}
use cywl_oopz.Audio.SourceQueue.{AudioSourceKind, kind_beq, block_duration_ms}

abbrev pub Frame : Type 0
Frame = ℕ

abbrev pub sample_rate : ℕ
sample_rate = 48_000

-- The frames of one block: 960.
abbrev pub block_frames : ℕ
block_frames = sample_rate * block_duration_ms / 1_000

-- The exceptions of the ledger and of the values that it makes.
pub data LedgerError : Type 0 where
  ledger_error capacity_error value_error format_error key_error index_error : LedgerError

pub record SourceSlice : Type 0 where
  pub source_id : ℕ
  pub kind : AudioSourceKind
  pub generation : ℕ
  pub source_start_frame : ℕ
  pub master_offset_frames : ℕ
  pub samples : List Frame

-- The constructor: _readonly_audio_array refuses an empty array.
unfoldable pub make_slice :
    ℕ → AudioSourceKind → ℕ → ℕ → ℕ → List Frame → Result LedgerError SourceSlice
make_slice source_id kind generation source_start master_offset samples = do
  raise_if (nat_beq (length samples) 0) format_error
  ok (record {
    source_id = source_id;
    kind = kind;
    generation = generation;
    source_start_frame = source_start;
    master_offset_frames = master_offset;
    samples = samples;
  })

abbrev pub slice_frames : SourceSlice → ℕ
slice_frames s = length s.samples

abbrev pub source_end : SourceSlice → ℕ
source_end s = s.source_start_frame + slice_frames s

abbrev pub master_end_offset : SourceSlice → ℕ
master_end_offset s = s.master_offset_frames + slice_frames s

-- max(0, prefix_frames - self.master_offset_frames)
abbrev pub consumed_frames : ℕ → SourceSlice → ℕ
consumed_frames prefix s = prefix - s.master_offset_frames

unfoldable pub some_slice : Result LedgerError SourceSlice → Result LedgerError (Option SourceSlice)
some_slice r = do s ← r; ok (some s)

-- trim_master_prefix
unfoldable pub trim_master_prefix : ℕ → SourceSlice → Result LedgerError (Option SourceSlice)
unfolding make_slice some_slice
trim_master_prefix prefix s =
    if leb (slice_frames s) (consumed_frames prefix s)
    then ok none
    else some_slice (
        make_slice s.source_id s.kind s.generation (s.source_start_frame + consumed_frames prefix s)
          (s.master_offset_frames - prefix) (drop (consumed_frames prefix s) s.samples))

pub record MasterPlaybackCursor : Type 0 where
  pub epoch : ℕ
  pub accepted_frames : ℕ
  pub rendered_frames : ℕ
  pub buffered_frames : ℕ

unfoldable pub make_master_cursor : ℕ → ℕ → ℕ → ℕ → Result LedgerError MasterPlaybackCursor
make_master_cursor epoch accepted rendered buffered = do
  raise_if (ltb accepted rendered) value_error
  raise_if (ltb accepted (rendered + buffered)) value_error
  ok (record {
    epoch = epoch;
    accepted_frames = accepted;
    rendered_frames = rendered;
    buffered_frames = buffered;
  })

pub record SourcePlaybackCursor : Type 0 where
  pub generation : ℕ
  pub accepted_frames : ℕ
  pub rendered_frames : ℕ

-- The constructor, at the default sample rate.
unfoldable pub make_source_cursor : ℕ → ℕ → ℕ → Result LedgerError SourcePlaybackCursor
make_source_cursor generation accepted rendered = do
  raise_if (ltb accepted rendered) value_error
  ok (record { generation = generation; accepted_frames = accepted; rendered_frames = rendered })

pub record SourceKey : Type 0 where
  pub source_id : ℕ
  pub kind : AudioSourceKind
  pub generation : ℕ

-- SourceKey.from_slice
abbrev pub from_slice : SourceSlice → SourceKey
from_slice s = record { source_id = s.source_id; kind = s.kind; generation = s.generation }

abbrev pub key_beq : SourceKey → SourceKey → Bool
key_beq a b =
    nat_beq a.source_id b.source_id && kind_beq a.kind b.kind && nat_beq a.generation b.generation

pub kind_beq_iff : (a b : AudioSourceKind) → (kind_beq a b ≡ true) ↔ (a ≡ b)
kind_beq_iff a b = ground arith

pub key_beq_iff : (a b : SourceKey) → (key_beq a b ≡ true) ↔ (a ≡ b)
key_beq_iff a b = (
  λ h. ground (arith, kind_beq_iff a.kind b.kind),
  λ h. ground (arith, kind_beq_iff a.kind b.kind),
)

instance abbrev pub key_eq : Eq SourceKey
key_eq = record { beq = key_beq; beq_iff = key_beq_iff }
