-- ===== src/Audio/Ledger/Answers.antt =====
-- What the methods of features/audio/ledger.py answer, on a ledger that keeps its invariant.
use cywl_oopz.Audio.Ledger.Reconciling.{
  accept_covered, check_cursor, check_pending, mark_covered, reconcile,
}
use cywl_oopz.Prelude.{
  ltb, ◌∙◌, ap, refl, ℕ, ◌≡◌, ◌↔◌, inl, inr, Option, none, some, List, [], ◌∷◌, arith, map, Bool,
  true, false, ok, err, Result, Result-cases,
}
use cywl_oopz.Audio.Slices.{MasterPlaybackCursor, LedgerError, ledger_error, key_eq}
use cywl_oopz.Audio.Ledger.Tracked.{IsBounded}
use cywl_oopz.Audio.Ledger.Values.{MasterPlayoutLedger, MasterLedgerEntry, Sources}
use cywl_oopz.Audio.Ledger.Cursors.{answer_cursors, observe, source_cursors, SourceCursors}
use cywl_oopz.Audio.Ledger.Sound.{IsSound, PendingIn, find-accept_covered}
use cywl_oopz.Audio.Ledger.Marked.{IsAhead, check_cursor-IsAhead}
use cywl_oopz.Audio.Ledger.Reconciled.{checks, reconcile-IsReconciled, reconcile-err}

-- Cursors within what was accepted can be given out.
pub source_cursors_total :
    (d : Sources) → IsBounded d → (c : SourceCursors) × (source_cursors d ≡ ok c)
unfolding source_cursors
source_cursors_total [] b = ([], refl)
source_cursors_total ((key, p) ∷ d) (within, b) =
    let (c, rest) = source_cursors_total d b in
    let fine : ltb p.accepted_frames p.rendered_frames ≡ false = ground (arith, within) in
    (
      (
        key,
        record {
          generation = key.generation;
          accepted_frames = p.accepted_frames;
          rendered_frames = p.rendered_frames;
        },
      )
          ∷ c,
      rw (fine, rest),
    )

-- A cursor that observe takes: it goes on from the last one, within the registered audio, and does
-- not reach the end of the pending write.
pub record IsAcceptable (cursor : MasterPlaybackCursor) (l : MasterPlayoutLedger) : Type 0 where
  pub ahead : IsAhead cursor l
  pub waiting : PendingIn l.pending_entry_id l.entries cursor.accepted_frames

pub check_cursor-ok :
    (cursor : MasterPlaybackCursor) (l : MasterPlayoutLedger)
    → IsAhead cursor l
    → check_cursor cursor l ≡ ok tt
unfolding check_cursor
check_cursor-ok cursor l a =
    ground (arith, a.same_epoch, a.accepted_on, a.rendered_on, a.within, a.proper)

check_cursor-err :
    (cursor : MasterPlaybackCursor) (l : MasterPlayoutLedger) (e : LedgerError)
    → check_cursor cursor l ≡ err e
    → e ≡ ledger_error
unfolding check_cursor
check_cursor-err cursor l e h = ground arith

check_pending-ok :
    (cursor : MasterPlaybackCursor) (p : Option ℕ) (l : List MasterLedgerEntry)
    → PendingIn p l cursor.accepted_frames
    → check_pending false p cursor (map (accept_covered cursor.accepted_frames) l) ≡ ok tt
check_pending-ok cursor none l w = refl
check_pending-ok cursor (some id) l (e, found, out) =
    rw (find-accept_covered cursor.accepted_frames id l e found) (ground (arith, out))

check_pending-PendingIn :
    (cursor : MasterPlaybackCursor) (p : Option ℕ) (l : List MasterLedgerEntry) (a : ℕ)
    → PendingIn p l a
    → check_pending false p cursor (map (accept_covered cursor.accepted_frames) l) ≡ ok tt
    → PendingIn p l cursor.accepted_frames
check_pending-PendingIn cursor none l a w h = tt
check_pending-PendingIn cursor (some id) l a (e, found, out) h =
    (e, found, ground (arith, find-accept_covered cursor.accepted_frames id l e found))

check_pending-err :
    (allow : Bool) (cursor : MasterPlaybackCursor) (p : Option ℕ) (l : List MasterLedgerEntry)
    (x : LedgerError)
    → check_pending allow p cursor l ≡ err x
    → x ≡ ledger_error
check_pending-err allow cursor none l x h = cc
check_pending-err true cursor (some id) l x h = cc
check_pending-err false cursor (some id) l x h = ground arith

checks-IsAcceptable :
    (cursor : MasterPlaybackCursor) (l : MasterPlayoutLedger)
    → IsSound l
    → checks false cursor l ≡ ok tt
    → IsAcceptable cursor l
unfolding mark_covered
checks-IsAcceptable cursor l s h = elim (Result-cases (check_cursor cursor l)) [
  | inl (u, good) ↦ record {
    ahead = check_cursor-IsAhead cursor l good;
    waiting =
        check_pending-PendingIn cursor l.pending_entry_id l.entries l.master_accepted_frames
          s.waiting (rw good at h);
  }
  | inr (e, bad) ↦ absurd (cc (rw bad at h))
]

checks-ok :
    (cursor : MasterPlaybackCursor) (l : MasterPlayoutLedger)
    → IsAcceptable cursor l
    → checks false cursor l ≡ ok tt
unfolding mark_covered
checks-ok cursor l a =
    rw (check_cursor-ok cursor l a.ahead)
      (check_pending-ok cursor l.pending_entry_id l.entries a.waiting)

checks-err :
    (allow : Bool) (cursor : MasterPlaybackCursor) (l : MasterPlayoutLedger) (e : LedgerError)
    → checks allow cursor l ≡ err e
    → e ≡ ledger_error
checks-err allow cursor l e h = elim (Result-cases (check_cursor cursor l)) [
  | inl (u, good) ↦
      check_pending-err allow cursor l.pending_entry_id (mark_covered allow cursor l).entries e
        (rw good at h)
  | inr (x, bad) ↦ check_cursor-err cursor l e (bad ∙ (rw bad at h))
]

answer-ok :
    (r : MasterPlayoutLedger × Result LedgerError (Unit {0}))
    → IsBounded r.0.sources
    → r.1 ≡ ok tt
    → (c : SourceCursors) × ((answer_cursors r).1 ≡ ok c)
answer-ok (l, ok u) b h = source_cursors_total l.sources b
answer-ok (l, err e) b h = absurd (cc)

answer-err :
    (r : MasterPlayoutLedger × Result LedgerError (Unit {0})) (e : LedgerError)
    → r.1 ≡ err e
    → (answer_cursors r).1 ≡ err e
answer-err (l, ok u) e h = absurd (cc)
answer-err (l, err x) e h = cc

-- observe gives the cursors of the sources exactly for a cursor that goes on from the last one
-- within the registered audio and does not reach the pending write's end; for any other it raises
-- AudioLedgerError, and no other exception.
pub observe-ok_iff :
    (cursor : MasterPlaybackCursor) (l : MasterPlayoutLedger)
    → IsSound l
    → (((c : SourceCursors) × ((observe cursor l).1 ≡ ok c)) ↔ IsAcceptable cursor l)
      × ((e : LedgerError) → (observe cursor l).1 ≡ err e → e ≡ ledger_error)
unfolding observe
observe-ok_iff cursor l s = elim (Result-cases (checks false cursor l)) [
  | inl (u, good) ↦
      let r = reconcile-IsReconciled false cursor l s good in
      let (c, given) =
        answer-ok (reconcile false cursor l) r.sound.bounded (ap (λ x. x.1) r.result) in
      ((λ _. checks-IsAcceptable cursor l s good, λ _. (c, given)), λ e h. absurd (cc (given, h)))
  | inr (x, bad) ↦
      let raised =
        answer-err (reconcile false cursor l) x (reconcile-err false cursor l x s bad).1 in
      (
        (λ (c, given). absurd (cc (given, raised)), λ a. absurd (cc (checks-ok cursor l a, bad))),
        λ e h. checks-err false cursor l e (cc (h, raised, bad)),
      )
]
