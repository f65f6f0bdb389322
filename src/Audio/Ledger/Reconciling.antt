-- ===== src/Audio/Ledger/Reconciling.antt =====
-- features/audio/ledger.py: _reconcile with the methods that it calls.
use cywl_oopz.Prelude.{
  ℕ, ◌+◌, ◌-◌, Bool, true, false, not, ◌&&◌, Option, none, some, List, [], ◌∷◌, map, ltb, leb,
  nat_beq, get_elem?, any, if◌then◌else◌, min, max, Result, ok, err, raise_if, ◌>>◌,
}
use cywl_oopz.Prelude.Dict.{get, put}
use cywl_oopz.Audio.Slices.{
  key_eq, Frame, LedgerError, ledger_error, key_error, index_error, SourceSlice, slice_frames,
  MasterPlaybackCursor, from_slice,
}
use cywl_oopz.Audio.Ledger.Values.{
  MasterLedgerEntry, master_end, entry_sources, SourceProgress, Sources, MasterPlayoutLedger,
  and_then,
}
use cywl_oopz.Audio.Ledger.Registering.{find_entry, set_accepted}

-- The five checks at the start of _reconcile.
unfoldable pub check_cursor :
    MasterPlaybackCursor → MasterPlayoutLedger → Result LedgerError (Unit {0})
check_cursor cursor l = do
  raise_if (not (nat_beq cursor.epoch l.epoch)) ledger_error
  raise_if (ltb cursor.accepted_frames l.master_accepted_frames) ledger_error
  raise_if (ltb cursor.rendered_frames l.master_rendered_frames) ledger_error
  raise_if (ltb l.next_master_frame cursor.accepted_frames) ledger_error
  raise_if (ltb cursor.accepted_frames cursor.rendered_frames) ledger_error
  ok tt

abbrev pub is_covered : ℕ → MasterLedgerEntry → Bool
is_covered frames entry = leb (master_end entry) frames

abbrev pub accept_covered : ℕ → MasterLedgerEntry → MasterLedgerEntry
accept_covered frames entry = if is_covered frames entry then set_accepted entry else entry

-- entry.entry_id == pending
abbrev pub has_id : Option ℕ → MasterLedgerEntry → Bool
has_id none entry = false
has_id (some entry_id) entry = nat_beq entry.entry_id entry_id

-- The loop of _reconcile over the entries.
unfoldable pub mark_covered :
    Bool → MasterPlaybackCursor → MasterPlayoutLedger → MasterPlayoutLedger
mark_covered allow cursor l = record l {
  entries = map (accept_covered cursor.accepted_frames) l.entries;
  pending_entry_id =
      if any
        (λ entry.
          is_covered cursor.accepted_frames entry && has_id l.pending_entry_id entry && allow)
        l.entries
      then none
      else l.pending_entry_id;
}

abbrev pub check_entry : ℕ → Option MasterLedgerEntry → Result LedgerError (Unit {0})
check_entry frames none = err ledger_error
check_entry frames (some entry) = raise_if (is_covered frames entry) ledger_error

-- A pending write must be committed by mark_accepted.
abbrev pub check_pending :
    Bool → Option ℕ → MasterPlaybackCursor → List MasterLedgerEntry → Result LedgerError (Unit {0})
check_pending allow none cursor entries = ok tt
check_pending true (some entry_id) cursor entries = ok tt
check_pending false (some entry_id) cursor entries =
    check_entry cursor.accepted_frames (find_entry entry_id entries)

-- rendered_in_source, for a slice of an entry that starts at a master frame.
abbrev pub rendered_in_source : ℕ → ℕ → SourceSlice → ℕ
rendered_in_source rendered start source =
    min (slice_frames source) (rendered - (start + source.master_offset_frames))

abbrev pub advance_progress :
    SourceSlice → ℕ → Sources → Option SourceProgress → Sources × Result LedgerError (Unit {0})
advance_progress source count d none = (d, err key_error)
advance_progress source count d (some progress) =
    let rendered = max progress.rendered_frames (source.source_start_frame + count) in
    (
      put d (from_slice source) (record progress { rendered_frames = rendered }),
      raise_if (ltb progress.accepted_frames rendered) ledger_error,
    )

-- The body of the inner loop of _advance_sources.
unfoldable pub advance_source :
    ℕ → ℕ → SourceSlice → Sources → Sources × Result LedgerError (Unit {0})
advance_source rendered start source d =
    let count = rendered_in_source rendered start source in
    if nat_beq count 0
    then (d, ok tt)
    else advance_progress source count d (get d (from_slice source))

unfoldable pub advance_entry :
    ℕ → ℕ → List SourceSlice → Sources → Sources × Result LedgerError (Unit {0})
unfolding advance_source
advance_entry rendered start [] d = (d, ok tt)
advance_entry rendered start (source ∷ rest) d =
    and_then (advance_source rendered start source d) (advance_entry rendered start rest)

-- _advance_sources
unfoldable pub advance_sources :
    ℕ → List MasterLedgerEntry → Sources → Sources × Result LedgerError (Unit {0})
unfolding advance_entry
advance_sources rendered [] d = (d, ok tt)
advance_sources rendered (entry ∷ rest) d =
    if leb rendered entry.master_start_frame
    then (d, ok tt)
    else and_then (advance_entry rendered entry.master_start_frame (entry_sources entry) d)
        (advance_sources rendered rest)

abbrev pub sample_at : ℕ → List Frame → Result LedgerError (Option Frame)
sample_at offset samples = elim (get_elem? samples offset) [
  | none ↦ err index_error
  | some sample ↦ ok (some sample)
]

-- _capture_last_rendered_sample: the sample that is then the last one.
unfoldable pub capture :
    ℕ → List MasterLedgerEntry → Option Frame → Result LedgerError (Option Frame)
capture position [] last = ok last
capture position (entry ∷ rest) last =
    if leb entry.master_start_frame position && ltb position (master_end entry)
    then sample_at (position - entry.master_start_frame) entry.output_samples
    else capture position rest last

abbrev pub captured :
    MasterPlayoutLedger
    → Result LedgerError (Option Frame)
    → MasterPlayoutLedger × Result LedgerError (Unit {0})
captured l (ok last) = (record l { last_rendered_sample = last }, ok tt)
captured l (err e) = (l, err e)

abbrev pub with_sources :
    MasterPlayoutLedger
    → Sources × Result LedgerError (Unit {0})
    → MasterPlayoutLedger × Result LedgerError (Unit {0})
with_sources l (d, r) = (record l { sources = d }, r)

-- The part of _reconcile for a rendered cursor that has moved.
unfoldable pub advance :
    MasterPlaybackCursor → MasterPlayoutLedger → MasterPlayoutLedger × Result LedgerError (Unit {0})
unfolding advance_sources capture
advance cursor l =
    if ltb l.master_rendered_frames cursor.rendered_frames
    then and_then (with_sources l (advance_sources cursor.rendered_frames l.entries l.sources))
        (λ m. captured m (capture (cursor.rendered_frames - 1) m.entries m.last_rendered_sample))
    else (l, ok tt)

-- while entries and entries[0].master_end_frame <= rendered: entries.popleft()
unfoldable pub drop_rendered : ℕ → List MasterLedgerEntry → List MasterLedgerEntry
drop_rendered rendered [] = []
drop_rendered rendered (entry ∷ rest) =
    if leb (master_end entry) rendered then drop_rendered rendered rest else entry ∷ rest

-- The end of _reconcile.
unfoldable pub settle : MasterPlaybackCursor → MasterPlayoutLedger → MasterPlayoutLedger
unfolding drop_rendered
settle cursor l = record l {
  master_accepted_frames = cursor.accepted_frames;
  master_rendered_frames = cursor.rendered_frames;
  entries = drop_rendered cursor.rendered_frames l.entries;
}

-- _reconcile
unfoldable pub reconcile :
    Bool
    → MasterPlaybackCursor
    → MasterPlayoutLedger
    → MasterPlayoutLedger × Result LedgerError (Unit {0})
unfolding check_cursor mark_covered advance settle
reconcile allow cursor l =
    and_then (l, check_cursor cursor l)
      λ checked.
        let marked = mark_covered allow cursor checked in
        and_then (marked, check_pending allow checked.pending_entry_id cursor marked.entries)
          λ m. and_then (advance cursor m) λ n. (settle cursor n, ok tt)
