-- ===== src/Audio/Ledger/Marked.antt =====
-- The start of _reconcile in features/audio/ledger.py: its checks, and the entries that it marks.
use cywl_oopz.Prelude.{
  if◌then◌else◌, ℕ, ◌≤◌, ◌<◌, ◌≡◌, inl, inr, Option, none, some, List, arith, map, any, Bool, true,
  false, ◌&&◌, Bool-cases, ok, if_ind,
}
use cywl_oopz.Audio.Slices.{MasterPlaybackCursor}
use cywl_oopz.Audio.Ledger.Values.{MasterPlayoutLedger, MasterLedgerEntry}
use cywl_oopz.Audio.Ledger.Reconciling.{
  check_cursor, mark_covered, check_pending, accept_covered, is_covered, has_id,
}
use cywl_oopz.Audio.Ledger.Tracked.{Tracks}
use cywl_oopz.Audio.Ledger.Chained
use cywl_oopz.Audio.Ledger.Sound.{
  IsSound, PendingIn, IsCutEntry, any-uncovered, PendingIn-accept_covered, find-accept_covered,
}

-- What the checks on a cursor let through.
pub record IsAhead (cursor : MasterPlaybackCursor) (l : MasterPlayoutLedger) : Type 0 where
  pub same_epoch : cursor.epoch ≡ l.epoch
  pub accepted_on : l.master_accepted_frames ≤ cursor.accepted_frames
  pub rendered_on : l.master_rendered_frames ≤ cursor.rendered_frames
  pub within : cursor.accepted_frames ≤ l.next_master_frame
  pub proper : cursor.rendered_frames ≤ cursor.accepted_frames

pub check_cursor-IsAhead :
    (cursor : MasterPlaybackCursor) (l : MasterPlayoutLedger)
    → check_cursor cursor l ≡ ok tt
    → IsAhead cursor l
unfolding check_cursor
check_cursor-IsAhead cursor l h = record {
  same_epoch = ground arith;
  accepted_on = ground arith;
  rendered_on = ground arith;
  within = ground arith;
  proper = ground arith;
}

-- A value that stays, or goes.
mark_pending :
    (frames : ℕ) (p : Option ℕ) (b : Bool) (l : List MasterLedgerEntry) (a : ℕ)
    → PendingIn p l a
    → PendingIn (if b then none else p) l a
mark_pending frames p true l a w = tt
mark_pending frames p false l a w = w

pub mark_covered-IsSound :
    (allow : Bool) (cursor : MasterPlaybackCursor) (l : MasterPlayoutLedger)
    → IsSound l
    → IsSound (mark_covered allow cursor l)
unfolding mark_covered
mark_covered-IsSound allow cursor l s =
    let frames = cursor.accepted_frames in
    record {
      first = s.first;
      begun = s.begun;
      chained = Chained.Chain-accept_covered frames s.first l.next_master_frame l.entries s.chained;
      live =
          Chained.All-accept_covered (Chained.Live l.master_rendered_frames) (λ e h. h) frames
            l.entries s.live;
      ordered = s.ordered;
      registered = s.registered;
      windowed = s.windowed;
      fresh =
          Chained.All-accept_covered (λ (e : MasterLedgerEntry). e.entry_id < l.next_entry_id)
            (λ e h. h) frames l.entries s.fresh;
      waiting =
          mark_pending frames l.pending_entry_id
            (any (λ e. is_covered frames e && has_id l.pending_entry_id e && allow) l.entries)
            (map (accept_covered frames) l.entries) l.master_accepted_frames
            (PendingIn-accept_covered frames l.pending_entry_id l.entries l.master_accepted_frames
              s.waiting);
      tracked = Chained.All-accept_covered (Tracks l.sources) (λ e h. h) frames l.entries s.tracked;
      bounded = s.bounded;
      whole = Chained.All-accept_covered IsCutEntry (λ e h. h) frames l.entries s.whole;
    }

-- After the checks the pending write is beyond the cursor.
pub still_waiting :
    (cursor : MasterPlaybackCursor) (p : Option ℕ) (l : List MasterLedgerEntry) (a : ℕ)
    → PendingIn p l a
    → check_pending false p cursor (map (accept_covered cursor.accepted_frames) l) ≡ ok tt
    → PendingIn p (map (accept_covered cursor.accepted_frames) l) cursor.accepted_frames
still_waiting cursor none l a w h = tt
still_waiting cursor (some id) l a (e, found, out) h =
    let frames = cursor.accepted_frames in
    let there = find-accept_covered frames id l e found in
    (accept_covered frames e, there, ground (arith, there))

pub overtaken :
    (cursor : MasterPlaybackCursor) (p : Option ℕ) (l : List MasterLedgerEntry) (a : ℕ)
    → PendingIn p l a
    → PendingIn
        (if any (λ e. is_covered cursor.accepted_frames e && has_id p e && true) l then none else p)
        (map (accept_covered cursor.accepted_frames) l)
        cursor.accepted_frames
overtaken cursor none l a w =
    elim (Bool-cases (any (λ e. is_covered cursor.accepted_frames e && has_id none e && true) l)) [
      | inl yes_any ↦ rw yes_any tt
      | inr no_any ↦ rw no_any tt
    ]
overtaken cursor (some id) l a (e, found, out) =
    let frames = cursor.accepted_frames in
    let there = find-accept_covered frames id l e found in
    elim (Bool-cases (any (λ x. is_covered frames x && has_id (some id) x && true) l)) [
      | inl reached ↦ rw reached tt
      | inr unreached ↦ rw unreached (
        accept_covered frames e,
        there,
        if_ind (Chained.Live frames) (is_covered frames e)
            (λ _. any-uncovered frames id l e unreached found)
            (λ _. any-uncovered frames id l e unreached found),
      )
    ]
