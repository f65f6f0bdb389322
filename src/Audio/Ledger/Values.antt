-- ===== src/Audio/Ledger/Values.antt =====
-- The data of features/audio/ledger.py, its constructors and the reading of one entry. A method of
-- the ledger gives the ledger that it leaves beside its result: what it wrote before a raise stays
-- written.
use cywl_oopz.Prelude.{
  ℕ, ◌+◌, Bool, true, false, Option, none, some, List, [], ◌∷◌, ltb, leb, any, Result, ok, err,
  raise_if, ◌>>◌,
}
use cywl_oopz.Prelude.Dict.{Dict}
use cywl_oopz.Audio.Slices.{
  Frame, block_frames, LedgerError, value_error, SourceSlice, master_end_offset,
  SourcePlaybackCursor, SourceKey,
}

pub data LedgerEntryState : Type 0 where
  pending accepted : LedgerEntryState

pub record MasterLedgerEntry : Type 0 where
  pub entry_id : ℕ
  pub epoch : ℕ
  pub master_start_frame : ℕ
  pub frame_count : ℕ
  pub output_samples : List Frame
  pub music : Option SourceSlice
  pub voice : Option SourceSlice
  pub state : LedgerEntryState

abbrev pub master_end : MasterLedgerEntry → ℕ
master_end entry = entry.master_start_frame + entry.frame_count

-- tuple(source for source in (music, voice) if source is not None)
abbrev pub present : Option SourceSlice → Option SourceSlice → List SourceSlice
present none none = []
present none (some voice) = voice ∷ []
present (some music) none = music ∷ []
present (some music) (some voice) = music ∷ voice ∷ []

abbrev pub entry_sources : MasterLedgerEntry → List SourceSlice
entry_sources entry = present entry.music entry.voice

pub record SourceProgress : Type 0 where
  pub accepted_frames : ℕ
  pub rendered_frames : ℕ

abbrev pub Sources : Type 0
Sources = Dict SourceKey SourceProgress

pub record ReplaySegment : Type 0 where
  pub frame_count : ℕ
  pub music : Option SourceSlice
  pub voice : Option SourceSlice

abbrev pub is_empty {ℓ} : {A : Type ℓ} → List A → Bool
is_empty [] = true
is_empty (x ∷ xs) = false

unfoldable pub make_segment :
    ℕ → Option SourceSlice → Option SourceSlice → Result LedgerError ReplaySegment
make_segment frame_count music voice = do
  raise_if (leb frame_count 0) value_error
  raise_if (is_empty (present music voice)) value_error
  raise_if (any (λ source. ltb frame_count (master_end_offset source)) (present music voice))
      value_error
  ok (record { frame_count = frame_count; music = music; voice = voice })

pub record RemixPlan : Type 0 where
  pub old_epoch : ℕ
  pub next_epoch : ℕ
  pub source_cursors : Dict SourceKey SourcePlaybackCursor
  pub survivors : List ReplaySegment
  pub last_rendered_sample : Option Frame

-- What register_pending reads of a mixer.MixedAudioBlock.
pub record MixedAudioBlock : Type 0 where
  pub samples : List Frame
  pub music : Option SourceSlice
  pub voice : Option SourceSlice

pub record MasterPlayoutLedger : Type 0 where
  pub max_buffer_frames : ℕ
  pub epoch : ℕ
  pub next_master_frame : ℕ
  pub master_accepted_frames : ℕ
  pub master_rendered_frames : ℕ
  pub next_entry_id : ℕ
  pub pending_entry_id : Option ℕ
  pub entries : List MasterLedgerEntry
  pub sources : Sources
  pub last_rendered_sample : Option Frame

abbrev pub empty_ledger : ℕ → MasterPlayoutLedger
empty_ledger max_buffer_frames = record {
  max_buffer_frames = max_buffer_frames;
  epoch = 0;
  next_master_frame = 0;
  master_accepted_frames = 0;
  master_rendered_frames = 0;
  next_entry_id = 0;
  pending_entry_id = none;
  entries = [];
  sources = [];
  last_rendered_sample = none;
}

-- __init__
unfoldable pub make_ledger : ℕ → Result LedgerError MasterPlayoutLedger
make_ledger max_buffer_frames = do
  raise_if (ltb max_buffer_frames block_frames) value_error
  ok (empty_ledger max_buffer_frames)

-- Code that changes a state and may raise, and what follows it if it does not.
abbrev pub and_then {ℓ κ} :
    {S : Type ℓ} {A : Type κ}
    → S × Result LedgerError (Unit {0})
    → (S → S × Result LedgerError A)
    → S × Result LedgerError A
and_then (s, ok _) k = k s
and_then (s, err e) k = (s, err e)
