-- ===== src/Audio/Ledger/Calls.antt =====
-- The methods of features/audio/ledger.py keep its invariant in any order of their calls.
use cywl_oopz.Audio.Ledger.Reconciling.{reconcile}
use cywl_oopz.Prelude.{
  is_some, not, raise_if, if◌then◌else◌, refl, ℕ, ◌+◌, ◌<◌, ◌≡◌, inl, inr, List, [], ◌∷◌, arith,
  All, any, true, false, Bool-cases, ok, err, Result,
}
use cywl_oopz.Prelude.Dict.{get, pop, get-pop, pop-Values}
use cywl_oopz.Audio.Slices.{
  SourceSlice, SourceKey, from_slice, MasterPlaybackCursor, LedgerError, ledger_error, key_eq,
}
use cywl_oopz.Audio.Ledger.Values.{
  entry_sources, RemixPlan, MasterPlayoutLedger, MasterLedgerEntry, MixedAudioBlock, Sources,
  and_then, make_ledger,
}
use cywl_oopz.Audio.Ledger.Registering.{register_pending, find_entry}
use cywl_oopz.Audio.Ledger.Cursors.{
  check_commit, is_pending, observe, mark_accepted, committed, answer_cursors,
}
use cywl_oopz.Audio.Ledger.Remixing.{
  remix, forget_sources, pop_sources, has_key, refers, make_plan, flushed, replanned,
}
use cywl_oopz.Audio.Ledger.Tracked.{Tracks, Known, IsBounded, Within}
use cywl_oopz.Audio.Ledger.Chained
use cywl_oopz.Audio.Ledger.Sound.{IsSound, IsCutEntry, and_then_ind, make_ledger-IsSound}
use cywl_oopz.Audio.Ledger.Registered.{IsMixed, register_pending-IsSound}
use cywl_oopz.Audio.Ledger.Reconciled.{reconcile-IsSound}

answer_cursors-IsSound :
    (r : MasterPlayoutLedger × Result LedgerError (Unit {0}))
    → IsSound r.0
    → IsSound (answer_cursors r).0
answer_cursors-IsSound (l, ok u) s = s
answer_cursors-IsSound (l, err e) s = s

observe-IsSound :
    (cursor : MasterPlaybackCursor) (l : MasterPlayoutLedger)
    → IsSound l
    → IsSound (observe cursor l).0
unfolding observe
observe-IsSound cursor l s =
    answer_cursors-IsSound (reconcile false cursor l) (reconcile-IsSound false cursor l s)

committed-IsSound : (id : ℕ) (l : MasterPlayoutLedger) → IsSound l → IsSound (committed id l)
committed-IsSound id l s = record {
  first = s.first;
  begun = s.begun;
  chained = Chained.Chain-accept_entry id s.first l.next_master_frame l.entries s.chained;
  live =
      Chained.All-accept_entry (Chained.Live l.master_rendered_frames) (λ e h. h) id l.entries
        s.live;
  ordered = s.ordered;
  registered = s.registered;
  windowed = s.windowed;
  fresh =
      Chained.All-accept_entry (λ (e : MasterLedgerEntry). e.entry_id < l.next_entry_id) (λ e h. h)
        id l.entries s.fresh;
  waiting = tt;
  tracked = Chained.All-accept_entry (Tracks l.sources) (λ e h. h) id l.entries s.tracked;
  bounded = s.bounded;
  whole = Chained.All-accept_entry IsCutEntry (λ e h. h) id l.entries s.whole;
}

mark_accepted-IsSound :
    (id : ℕ) (cursor : MasterPlaybackCursor) (l : MasterPlayoutLedger)
    → IsSound l
    → IsSound (mark_accepted id cursor l).0
unfolding mark_accepted
mark_accepted-IsSound id cursor l s =
    and_then_ind IsSound l (raise_if (not (is_pending l.pending_entry_id id)) ledger_error)
      (λ owned.
        and_then (owned, check_commit (find_entry id owned.entries) cursor owned)
          λ m. answer_cursors (reconcile false cursor (committed id m)))
      s
      (λ _.
        and_then_ind IsSound l (check_commit (find_entry id l.entries) cursor l)
          (λ m. answer_cursors (reconcile false cursor (committed id m))) s
          (λ _.
            answer_cursors-IsSound (reconcile false cursor (committed id l))
              (reconcile-IsSound false cursor (committed id l) (committed-IsSound id l s))))

flushed-IsSound : (l : MasterPlayoutLedger) → IsSound l → IsSound (flushed l)
flushed-IsSound l s = record {
  first = 0;
  begun = omega arith;
  chained = refl;
  live = tt;
  ordered = omega arith;
  registered = omega arith;
  windowed = omega arith;
  fresh = tt;
  waiting = tt;
  tracked = tt;
  bounded = s.bounded;
  whole = tt;
}

replanned-IsSound :
    (l : MasterPlayoutLedger) (p : Result LedgerError RemixPlan)
    → IsSound l
    → IsSound (replanned l p).0
replanned-IsSound l (ok p) s = flushed-IsSound l s
replanned-IsSound l (err e) s = s

remixed-IsSound :
    (discard : List SourceKey) (epoch : ℕ) (r : MasterPlayoutLedger × Result LedgerError (Unit {0}))
    → IsSound r.0
    → IsSound (and_then r (λ m. replanned m (make_plan discard epoch m))).0
remixed-IsSound discard epoch (m, ok u) s = replanned-IsSound m (make_plan discard epoch m) s
remixed-IsSound discard epoch (m, err e) s = s

remix-IsSound :
    (cursor : MasterPlaybackCursor) (discard : List SourceKey) (l : MasterPlayoutLedger)
    → IsSound l
    → IsSound (remix cursor discard l).0
unfolding remix
remix-IsSound cursor discard l s =
    remixed-IsSound discard l.epoch (reconcile true cursor l) (reconcile-IsSound true cursor l s)

-- Popping other keys leaves a slice known.
pop-Known :
    (keys : List SourceKey) (d : Sources) (n : ℕ) (s : SourceSlice)
    → has_key (from_slice s) keys ≡ false
    → Known d s
    → Known (pop_sources keys d n).0 s
unfolding pop_sources
pop-Known [] d n s h k = k
pop-Known (key ∷ keys) d n s h (p, found, end) =
    let other : key_eq.beq key (from_slice s) ≡ false = ground arith in
    pop-Known keys (pop d key) (if is_some (get d key) then n + 1 else n) s (ground arith)
      (p, rw (get-pop d key (from_slice s), other) found, end)

pop-All-Known :
    (keys : List SourceKey) (d : Sources) (l : List SourceSlice)
    → any (λ s. has_key (from_slice s) keys) l ≡ false
    → All (Known d) l
    → All (Known (pop_sources keys d 0).0) l
pop-All-Known keys d [] h k = tt
pop-All-Known keys d (s ∷ l) h k =
    (pop-Known keys d 0 s (ground arith) k.0, pop-All-Known keys d l (ground arith) k.1)

pop-All-Tracks :
    (keys : List SourceKey) (d : Sources) (l : List MasterLedgerEntry)
    → any (refers keys) l ≡ false
    → All (Tracks d) l
    → All (Tracks (pop_sources keys d 0).0) l
pop-All-Tracks keys d [] h k = tt
pop-All-Tracks keys d (e ∷ l) h k = (
  pop-All-Known keys d (entry_sources e) (ground arith) k.0,
  pop-All-Tracks keys d l (ground arith) k.1,
)

pop-IsBounded :
    (keys : List SourceKey) (d : Sources) (n : ℕ) → IsBounded d → IsBounded (pop_sources keys d n).0
unfolding pop_sources
pop-IsBounded [] d n b = b
pop-IsBounded (key ∷ keys) d n b =
    pop-IsBounded keys (pop d key) (if is_some (get d key) then n + 1 else n)
      (pop-Values Within d key b)

forget_sources-IsSound :
    (keys : List SourceKey) (l : MasterPlayoutLedger)
    → IsSound l
    → IsSound (forget_sources keys l).0
unfolding forget_sources
forget_sources-IsSound keys l s = elim (Bool-cases (any (refers keys) l.entries)) [
  | inl used ↦ rw used s
  | inr unused ↦ rw unused (record {
    first = s.first;
    begun = s.begun;
    chained = s.chained;
    live = s.live;
    ordered = s.ordered;
    registered = s.registered;
    windowed = s.windowed;
    fresh = s.fresh;
    waiting = s.waiting;
    tracked = pop-All-Tracks keys l.sources l.entries unused s.tracked;
    bounded = pop-IsBounded keys l.sources 0 s.bounded;
    whole = s.whole;
  })
]

-- A call of the ledger, by the writer, by a cursor of the output or by a flush.
pub data Call : Type 0 where
  registers : MixedAudioBlock → Call
  commits : ℕ → MasterPlaybackCursor → Call
  observes : MasterPlaybackCursor → Call
  remixes : MasterPlaybackCursor → List SourceKey → Call
  forgets : List SourceKey → Call

-- The ledger after a call, whether it raised or not.
unfoldable pub after : MasterPlayoutLedger → Call → MasterPlayoutLedger
after l (registers mixed) = (register_pending mixed l).0
after l (commits id cursor) = (mark_accepted id cursor l).0
after l (observes cursor) = (observe cursor l).0
after l (remixes cursor discard) = (remix cursor discard l).0
after l (forgets keys) = (forget_sources keys l).0

unfoldable pub run : MasterPlayoutLedger → List Call → MasterPlayoutLedger
unfolding after
run l [] = l
run l (call ∷ calls) = run (after l call) calls

-- The slices of a mixed block are those of AudioBlock.as_slice: not empty, and within the block.
abbrev pub IsProper : Call → Type 0
IsProper (registers mixed) = IsMixed mixed
IsProper (commits id cursor) = Unit
IsProper (observes cursor) = Unit
IsProper (remixes cursor discard) = Unit
IsProper (forgets keys) = Unit

after-IsSound :
    (l : MasterPlayoutLedger) (call : Call) → IsProper call → IsSound l → IsSound (after l call)
unfolding after
after-IsSound l (registers mixed) h s = register_pending-IsSound mixed l h s
after-IsSound l (commits id cursor) h s = mark_accepted-IsSound id cursor l s
after-IsSound l (observes cursor) h s = observe-IsSound cursor l s
after-IsSound l (remixes cursor discard) h s = remix-IsSound cursor discard l s
after-IsSound l (forgets keys) h s = forget_sources-IsSound keys l s

Sound-run :
    (l : MasterPlayoutLedger) (calls : List Call)
    → All IsProper calls
    → IsSound l
    → IsSound (run l calls)
unfolding run
Sound-run l [] h s = s
Sound-run l (call ∷ calls) h s = Sound-run (after l call) calls h.1 (after-IsSound l call h.0 s)

-- After any calls on a new ledger, whether they raise or not, that register blocks whose slices are
-- not empty and lie within the block, its entries lie end to end up to the
-- next master frame, none of them is rendered to its end, the cursors are in order, the audio that
-- is not rendered fits the window, the pending write is beyond the accepted cursor, every slice of
-- an entry is accounted for by its source, and no source has rendered more than it accepted.
pub run-IsSound :
    (max_frames : ℕ) (l : MasterPlayoutLedger) (calls : List Call)
    → make_ledger max_frames ≡ ok l
    → All IsProper calls
    → IsSound (run l calls)
run-IsSound max_frames l calls made h = Sound-run l calls h (make_ledger-IsSound max_frames l made)
