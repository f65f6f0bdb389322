-- ===== src/Audio/Ledger/Reconciled.antt =====
-- _reconcile of features/audio/ledger.py keeps the invariant, and raises only where a check does.
use cywl_oopz.Prelude.{
  Result-cases, ◌>>◌, refl, ◌≡◌, inl, inr, arith, Bool, true, false, ok, err, Result,
}
use cywl_oopz.Audio.Slices.{LedgerError, MasterPlaybackCursor}
use cywl_oopz.Audio.Ledger.Values.{MasterPlayoutLedger, and_then}
use cywl_oopz.Audio.Ledger.Reconciling.{
  reconcile, check_cursor, mark_covered, check_pending, advance, settle,
}
use cywl_oopz.Audio.Ledger.Sound.{IsSound, PendingIn, any-disallowed}
use cywl_oopz.Audio.Ledger.Marked.{
  IsAhead, check_cursor-IsAhead, mark_covered-IsSound, still_waiting, overtaken,
}
use cywl_oopz.Audio.Ledger.Progress.{
  progressed, IsProgress, advance-IsProgress, settle-IsSound, IsAhead-mark_covered,
}

-- The pending write after the checks, for both ways to reconcile.
waiting_on :
    (allow : Bool) (cursor : MasterPlaybackCursor) (l : MasterPlayoutLedger)
    → IsSound l
    → check_pending allow l.pending_entry_id cursor (mark_covered allow cursor l).entries ≡ ok tt
    → PendingIn
        (mark_covered allow cursor l).pending_entry_id
        (mark_covered allow cursor l).entries
        cursor.accepted_frames
unfolding mark_covered
waiting_on true cursor l s h =
    overtaken cursor l.pending_entry_id l.entries l.master_accepted_frames s.waiting
waiting_on false cursor l s h =
    rw (any-disallowed cursor.accepted_frames l.pending_entry_id l.entries)
      (still_waiting cursor l.pending_entry_id l.entries l.master_accepted_frames s.waiting h)

-- What _reconcile does where its checks pass.
pub record IsReconciled (allow : Bool) (cursor : MasterPlaybackCursor) (l : MasterPlayoutLedger)
    (r : MasterPlayoutLedger × Result LedgerError (Unit {0})) : Type 0 where
  pub progress :
      IsProgress cursor (mark_covered allow cursor l) (advance cursor (mark_covered allow cursor l))
  pub result : r ≡ (
    settle cursor (progressed (mark_covered allow cursor l) progress.after progress.last),
    ok tt,
  )
  pub sound : IsSound r.0

finish :
    (allow : Bool) (cursor : MasterPlaybackCursor) (l : MasterPlayoutLedger)
    → IsSound l
    → IsAhead cursor l
    → check_pending allow l.pending_entry_id cursor (mark_covered allow cursor l).entries ≡ ok tt
    → IsReconciled allow cursor l
        (and_then (advance cursor (mark_covered allow cursor l)) (λ n. (settle cursor n, ok tt)))
finish allow cursor l s a h =
    let m = mark_covered allow cursor l in
    let marked = mark_covered-IsSound allow cursor l s in
    let ahead = IsAhead-mark_covered allow cursor l a in
    let p = advance-IsProgress cursor m marked (omega (arith, ahead.within, ahead.proper)) in
    record {
      progress = p;
      result = rw p.result;
      sound = rw p.result (
          settle-IsSound cursor m p.after p.last marked ahead (waiting_on allow cursor l s h)
            p.grows p.bounded);
    }

-- The checks of _reconcile, in their order.
abbrev pub checks :
    Bool → MasterPlaybackCursor → MasterPlayoutLedger → Result LedgerError (Unit {0})
checks allow cursor l =
    check_cursor cursor l
    >> check_pending allow l.pending_entry_id cursor (mark_covered allow cursor l).entries

pub reconcile-IsReconciled :
    (allow : Bool) (cursor : MasterPlaybackCursor) (l : MasterPlayoutLedger)
    → IsSound l
    → checks allow cursor l ≡ ok tt
    → IsReconciled allow cursor l (reconcile allow cursor l)
unfolding reconcile
reconcile-IsReconciled allow cursor l s h = elim (Result-cases (check_cursor cursor l)) [
  | inl (u, good) ↦
      let let_through : check_pending allow l.pending_entry_id cursor
            (mark_covered allow cursor l).entries
          ≡ ok tt =
        rw good at h in
      rw (good, let_through)
        (finish allow cursor l s (check_cursor-IsAhead cursor l good) let_through)
  | inr (e, bad) ↦ absurd (cc (rw bad at h))
]

-- Where a check fails, its error comes back, and the invariant stays.
pub reconcile-err :
    (allow : Bool) (cursor : MasterPlaybackCursor) (l : MasterPlayoutLedger) (e : LedgerError)
    → IsSound l
    → checks allow cursor l ≡ err e
    → IsSound (reconcile allow cursor l).0 × ((reconcile allow cursor l).1 ≡ err e)
unfolding reconcile
reconcile-err allow cursor l e s h = elim (Result-cases (check_cursor cursor l)) [
  | inl (u, good) ↦
      let stopped : check_pending allow l.pending_entry_id cursor
            (mark_covered allow cursor l).entries
          ≡ err e =
        rw good at h in
      rw (good, stopped) (mark_covered-IsSound allow cursor l s, refl)
  | inr (x, bad) ↦ rw bad (s, rw bad at h)
]

pub reconcile-IsSound :
    (allow : Bool) (cursor : MasterPlaybackCursor) (l : MasterPlayoutLedger)
    → IsSound l
    → IsSound (reconcile allow cursor l).0
reconcile-IsSound allow cursor l s = elim (Result-cases (checks allow cursor l)) [
  | inl (u, good) ↦ (reconcile-IsReconciled allow cursor l s good).sound
  | inr (e, bad) ↦ (reconcile-err allow cursor l e s bad).0
]
