-- ===== src/Audio/Ledger/Registering.antt =====
-- features/audio/ledger.py: register_pending, and what mark_accepted changes of an entry.
use cywl_oopz.Prelude.{
  option_or, ℕ, ◌+◌, ◌-◌, not, Option, none, some, List, [], ◌∷◌, ◌++◌, ltb, nat_beq, length,
  if◌then◌else◌, is_some, max, Result, ok, err, raise_if, ◌>>◌,
}
use cywl_oopz.Prelude.Dict.{get, put}
use cywl_oopz.Audio.Slices.{
  key_eq, block_frames, LedgerError, ledger_error, capacity_error, SourceSlice, source_end,
  SourceKey, from_slice,
}
use cywl_oopz.Audio.Ledger.Values.{
  LedgerEntryState, MasterLedgerEntry, master_end, present, SourceProgress, Sources,
  MixedAudioBlock, MasterPlayoutLedger, and_then,
}

abbrev pub unrendered_frames : MasterPlayoutLedger → ℕ
unrendered_frames l = l.next_master_frame - l.master_rendered_frames

abbrev pub no_progress : SourceProgress
no_progress = record { accepted_frames = 0; rendered_frames = 0 }

-- self._sources.setdefault(key, _SourceProgress())
abbrev pub progress_of : Sources → SourceKey → SourceProgress
progress_of d key = option_or (get d key) no_progress

-- _note_source_accepted
unfoldable pub note_source_accepted :
    SourceSlice → Sources → Sources × Result LedgerError (Unit {0})
note_source_accepted source d =
    let key = from_slice source in
    let progress = progress_of d key in
    if ltb progress.accepted_frames source.source_start_frame
    then (put d key progress, err ledger_error)
    else (
      put d key
          (record progress { accepted_frames = max progress.accepted_frames (source_end source) }),
      ok tt,
    )

-- for source in entry.sources: self._note_source_accepted(source)
unfoldable pub note_sources : List SourceSlice → Sources → Sources × Result LedgerError (Unit {0})
unfolding note_source_accepted
note_sources [] d = (d, ok tt)
note_sources (source ∷ rest) d = and_then (note_source_accepted source d) (note_sources rest)

abbrev pub new_entry : MixedAudioBlock → MasterPlayoutLedger → MasterLedgerEntry
new_entry mixed l = record {
  entry_id = l.next_entry_id;
  epoch = l.epoch;
  master_start_frame = l.next_master_frame;
  frame_count = block_frames;
  output_samples = mixed.samples;
  music = mixed.music;
  voice = mixed.voice;
  state = LedgerEntryState.pending;
}

abbrev pub appended : MixedAudioBlock → MasterPlayoutLedger → Sources → MasterPlayoutLedger
appended mixed l d = record l {
  sources = d;
  entries = l.entries ++ new_entry mixed l ∷ [];
  next_master_frame = master_end (new_entry mixed l);
  pending_entry_id = some l.next_entry_id;
  next_entry_id = l.next_entry_id + 1;
}

-- The ledger if a source leaves a gap.
abbrev pub numbered : MasterPlayoutLedger → Sources → MasterPlayoutLedger
numbered l d = record l { sources = d; next_entry_id = l.next_entry_id + 1 }

abbrev pub registered :
    MixedAudioBlock
    → MasterPlayoutLedger
    → Sources × Result LedgerError (Unit {0})
    → MasterPlayoutLedger × Result LedgerError ℕ
registered mixed l (d, ok _) = (appended mixed l d, ok l.next_entry_id)
registered mixed l (d, err e) = (numbered l d, err e)

-- The checks of register_pending.
unfoldable pub check_register :
    MixedAudioBlock → MasterPlayoutLedger → Result LedgerError (Unit {0})
check_register mixed l = do
  raise_if (is_some l.pending_entry_id) ledger_error
  raise_if (not (nat_beq (length mixed.samples) block_frames)) ledger_error
  raise_if (ltb l.max_buffer_frames (unrendered_frames l + block_frames)) capacity_error
  ok tt

unfoldable pub register_pending :
    MixedAudioBlock → MasterPlayoutLedger → MasterPlayoutLedger × Result LedgerError ℕ
unfolding check_register
register_pending mixed l =
    and_then (l, check_register mixed l)
      λ m. registered mixed m (note_sources (present mixed.music mixed.voice) m.sources)

-- _entry
unfoldable pub find_entry : ℕ → List MasterLedgerEntry → Option MasterLedgerEntry
find_entry entry_id [] = none
find_entry entry_id (entry ∷ rest) =
    if nat_beq entry.entry_id entry_id then some entry else find_entry entry_id rest

abbrev pub set_accepted : MasterLedgerEntry → MasterLedgerEntry
set_accepted entry = record entry { state = LedgerEntryState.accepted }

-- entry.state = ACCEPTED, for the entry that _entry finds.
unfoldable pub accept_entry : ℕ → List MasterLedgerEntry → List MasterLedgerEntry
accept_entry entry_id [] = []
accept_entry entry_id (entry ∷ rest) =
    if nat_beq entry.entry_id entry_id
    then set_accepted entry ∷ rest
    else entry ∷ accept_entry entry_id rest
