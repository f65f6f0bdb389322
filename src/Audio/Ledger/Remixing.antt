-- ===== src/Audio/Ledger/Remixing.antt =====
-- features/audio/ledger.py: forget_sources and remix.
use cywl_oopz.Prelude.{
  ℕ, ◌+◌, ◌-◌, Bool, true, Option, none, some, List, [], ◌∷◌, leb, ◌==◌, any, if◌then◌else◌,
  is_some, max, Result, ok, err, ◌>>=◌,
}
use cywl_oopz.Prelude.Dict.{get, pop}
use cywl_oopz.Audio.Slices.{
  key_eq, LedgerError, ledger_error, SourceSlice, master_end_offset, trim_master_prefix,
  MasterPlaybackCursor, SourceKey, from_slice,
}
use cywl_oopz.Audio.Ledger.Values.{
  MasterLedgerEntry, present, entry_sources, Sources, ReplaySegment, make_segment, RemixPlan,
  MasterPlayoutLedger, and_then,
}
use cywl_oopz.Audio.Ledger.Reconciling.{reconcile}
use cywl_oopz.Audio.Ledger.Cursors.{SourceCursors, source_cursors}

abbrev pub has_key : SourceKey → List SourceKey → Bool
has_key key keys = any (λ k. k == key) keys

abbrev pub refers : List SourceKey → MasterLedgerEntry → Bool
refers keys entry = any (λ source. has_key (from_slice source) keys) (entry_sources entry)

-- removed += int(self._sources.pop(key, None) is not None), for each key
unfoldable pub pop_sources : List SourceKey → Sources → ℕ → Sources × ℕ
pop_sources [] d removed = (d, removed)
pop_sources (key ∷ keys) d removed =
    pop_sources keys (pop d key) (if is_some (get d key) then removed + 1 else removed)

abbrev pub forgotten :
    MasterPlayoutLedger → Sources × ℕ → MasterPlayoutLedger × Result LedgerError ℕ
forgotten l (d, removed) = (record l { sources = d }, ok removed)

unfoldable pub forget_sources :
    List SourceKey → MasterPlayoutLedger → MasterPlayoutLedger × Result LedgerError ℕ
unfolding pop_sources
forget_sources keys l =
    if any (refers keys) l.entries
    then (l, err ledger_error)
    else forgotten l (pop_sources keys l.sources 0)

-- _surviving_slice
unfoldable pub surviving_slice :
    List SourceKey → ℕ → Option SourceSlice → Result LedgerError (Option SourceSlice)
unfolding trim_master_prefix
surviving_slice discard prefix none = ok none
surviving_slice discard prefix (some source) =
    if has_key (from_slice source) discard then ok none else trim_master_prefix prefix source

-- max(source.master_end_offset_frames for source in retained)
abbrev pub longest : List SourceSlice → ℕ
longest [] = 0
longest (source ∷ rest) = max (master_end_offset source) (longest rest)

-- What is left of two slices: no segment where neither is.
unfoldable pub retain :
    Option SourceSlice → Option SourceSlice → Result LedgerError (Option ReplaySegment)
unfolding make_segment
retain none none = ok none
retain music voice = do
  segment ← make_segment (longest (present music voice)) music voice
  ok (some segment)

-- The body of remix's loop.
unfoldable pub survivor :
    List SourceKey → ℕ → MasterLedgerEntry → Result LedgerError (Option ReplaySegment)
unfolding surviving_slice retain
survivor discard rendered entry =
    let prefix = rendered - entry.master_start_frame in
    if leb entry.frame_count prefix then ok none else do
      music ← surviving_slice discard prefix entry.music
      voice ← surviving_slice discard prefix entry.voice
      retain music voice

abbrev pub add_segment : Option ReplaySegment → List ReplaySegment → List ReplaySegment
add_segment none segments = segments
add_segment (some segment) segments = segment ∷ segments

unfoldable pub survivors :
    List SourceKey → ℕ → List MasterLedgerEntry → Result LedgerError (List ReplaySegment)
unfolding survivor
survivors discard rendered [] = ok []
survivors discard rendered (entry ∷ rest) = do
  segment ← survivor discard rendered entry
  segments ← survivors discard rendered rest
  ok (add_segment segment segments)

-- The next epoch.
abbrev pub flushed : MasterPlayoutLedger → MasterPlayoutLedger
flushed l = record l {
  epoch = l.epoch + 1;
  next_master_frame = 0;
  master_accepted_frames = 0;
  master_rendered_frames = 0;
  pending_entry_id = none;
  entries = [];
}

abbrev pub plan : ℕ → SourceCursors → List ReplaySegment → MasterPlayoutLedger → RemixPlan
plan old_epoch cursors segments l = record {
  old_epoch = old_epoch;
  next_epoch = l.epoch + 1;
  source_cursors = cursors;
  survivors = segments;
  last_rendered_sample = l.last_rendered_sample;
}

abbrev pub replanned :
    MasterPlayoutLedger
    → Result LedgerError RemixPlan
    → MasterPlayoutLedger × Result LedgerError RemixPlan
replanned l (ok p) = (flushed l, ok p)
replanned l (err e) = (l, err e)

-- The plan of remix, once the cursor is reconciled.
unfoldable pub make_plan : List SourceKey → ℕ → MasterPlayoutLedger → Result LedgerError RemixPlan
unfolding source_cursors survivors
make_plan discard old_epoch l = do
  cursors ← source_cursors l.sources
  segments ← survivors discard l.master_rendered_frames l.entries
  ok (plan old_epoch cursors segments l)

unfoldable pub remix :
    MasterPlaybackCursor
    → List SourceKey
    → MasterPlayoutLedger
    → MasterPlayoutLedger × Result LedgerError RemixPlan
unfolding reconcile make_plan
remix cursor discard l =
    and_then (reconcile true cursor l) λ m. replanned m (make_plan discard l.epoch m)
