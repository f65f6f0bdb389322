-- ===== src/Audio/Ledger/Cursors.antt =====
-- features/audio/ledger.py: source_cursor, source_cursors, observe and mark_accepted.
use cywl_oopz.Prelude.{
  ℕ, Bool, false, not, ◌||◌, Option, none, some, [], ◌∷◌, ltb, nat_beq, Result, ok, err, raise_if,
  ◌>>=◌,
}
use cywl_oopz.Prelude.Dict.{Dict, get}
use cywl_oopz.Audio.Slices.{
  key_eq, LedgerError, ledger_error, key_error, MasterPlaybackCursor, SourcePlaybackCursor,
  make_source_cursor, SourceKey,
}
use cywl_oopz.Audio.Ledger.Values.{
  MasterLedgerEntry, master_end, Sources, MasterPlayoutLedger, and_then,
}
use cywl_oopz.Audio.Ledger.Registering.{find_entry, accept_entry}
use cywl_oopz.Audio.Ledger.Reconciling.{reconcile}

-- source_cursor
unfoldable pub source_cursor :
    SourceKey → MasterPlayoutLedger → Result LedgerError SourcePlaybackCursor
unfolding make_source_cursor
source_cursor key l = elim (get l.sources key) [
  | none ↦ err key_error
  | some progress ↦
      make_source_cursor key.generation progress.accepted_frames progress.rendered_frames
]

abbrev pub SourceCursors : Type 0
SourceCursors = Dict SourceKey SourcePlaybackCursor

-- source_cursors
unfoldable pub source_cursors : Sources → Result LedgerError SourceCursors
unfolding make_source_cursor
source_cursors [] = ok []
source_cursors ((key, progress) ∷ rest) = do
  cursor ← make_source_cursor key.generation progress.accepted_frames progress.rendered_frames
  cursors ← source_cursors rest
  ok ((key, cursor) ∷ cursors)

abbrev pub answer_cursors :
    MasterPlayoutLedger × Result LedgerError (Unit {0})
    → MasterPlayoutLedger × Result LedgerError SourceCursors
answer_cursors r = and_then r λ l. (l, source_cursors l.sources)

unfoldable pub observe :
    MasterPlaybackCursor
    → MasterPlayoutLedger
    → MasterPlayoutLedger × Result LedgerError SourceCursors
unfolding reconcile source_cursors
observe cursor l = answer_cursors (reconcile false cursor l)

abbrev pub committed : ℕ → MasterPlayoutLedger → MasterPlayoutLedger
committed entry_id l = record l {
  entries = accept_entry entry_id l.entries;
  pending_entry_id = none;
}

-- mark_accepted's two checks.
abbrev pub check_commit :
    Option MasterLedgerEntry
    → MasterPlaybackCursor
    → MasterPlayoutLedger
    → Result LedgerError (Unit {0})
check_commit none cursor l = err ledger_error
check_commit (some entry) cursor l =
    raise_if (not (nat_beq cursor.epoch l.epoch) || ltb cursor.accepted_frames (master_end entry))
      ledger_error

abbrev pub is_pending : Option ℕ → ℕ → Bool
is_pending none entry_id = false
is_pending (some id) entry_id = nat_beq id entry_id

unfoldable pub mark_accepted :
    ℕ
    → MasterPlaybackCursor
    → MasterPlayoutLedger
    → MasterPlayoutLedger × Result LedgerError SourceCursors
unfolding reconcile source_cursors find_entry accept_entry
mark_accepted entry_id cursor l =
    and_then (l, raise_if (not (is_pending l.pending_entry_id entry_id)) ledger_error)
      λ owned.
        and_then (owned, check_commit (find_entry entry_id owned.entries) cursor owned)
          λ m. answer_cursors (reconcile false cursor (committed entry_id m))
