-- ===== src/Audio/Ledger/Progress.antt =====
-- _reconcile of features/audio/ledger.py advances the sources and drops what is rendered.
use cywl_oopz.Prelude.{
  get_elem?, ltb, refl, ℕ, ◌-◌, ◌≤◌, ◌<◌, ◌≡◌, Option, some, arith, Bool, ok, err, if_ind, Result,
}
use cywl_oopz.Audio.Slices.{LedgerError, MasterPlaybackCursor, Frame}
use cywl_oopz.Audio.Ledger.Values.{MasterPlayoutLedger, MasterLedgerEntry, Sources, and_then}
use cywl_oopz.Audio.Ledger.Reconciling.{
  captured, with_sources, mark_covered, advance, settle, advance_sources, capture,
}
use cywl_oopz.Audio.Ledger.Tracked
use cywl_oopz.Audio.Ledger.Tracked.{Tracks, IsBounded, Grows}
use cywl_oopz.Audio.Ledger.Chained
use cywl_oopz.Audio.Ledger.Sound.{IsSound, PendingIn, IsCutEntry, PendingIn-drop_rendered}
use cywl_oopz.Audio.Ledger.Marked.{IsAhead}

-- The ledger with new progress and a new last sample.
abbrev pub progressed : MasterPlayoutLedger → Sources → Option Frame → MasterPlayoutLedger
progressed l d last = record l { sources = d; last_rendered_sample = last }

-- Advancing to a cursor within the registered audio never raises.
pub record IsProgress (cursor : MasterPlaybackCursor) (l : MasterPlayoutLedger)
    (r : MasterPlayoutLedger × Result LedgerError (Unit {0})) : Type 0 where
  pub after : Sources
  pub last : Option Frame
  pub grows : Grows l.sources after
  pub bounded : IsBounded after
  pub result : r ≡ (progressed l after last, ok tt)
  -- Where the cursor has moved, the last sample is the last one rendered.
  pub sampled :
      (first : ℕ)
      → Chained.Chain first l.entries l.next_master_frame
      → first ≤ l.master_rendered_frames
      → l.master_rendered_frames < cursor.rendered_frames
      → get_elem? (Chained.output_of l.entries) (cursor.rendered_frames - 1 - first) ≡ last

advance_pair :
    (position : ℕ) (l : MasterPlayoutLedger) (r : Sources × Result LedgerError (Unit {0}))
    (last : Option Frame)
    → r.1 ≡ ok tt
    → capture position l.entries l.last_rendered_sample ≡ ok last
    → and_then
        (with_sources l r)
        (λ m. captured m (capture position m.entries m.last_rendered_sample))
      ≡ (progressed l r.0 last, ok tt)
advance_pair position l (d, ok u) last h c = rw c
advance_pair position l (d, err e) last h c = absurd (cc)

pub advance-IsProgress :
    (cursor : MasterPlaybackCursor) (l : MasterPlayoutLedger)
    → IsSound l
    → cursor.rendered_frames ≤ l.next_master_frame
    → IsProgress cursor l (advance cursor l)
unfolding advance
advance-IsProgress cursor l s in_range =
    if_ind (IsProgress cursor l) (ltb l.master_rendered_frames cursor.rendered_frames)
      (λ moved.
        let position = cursor.rendered_frames - 1 in
        let a =
          Tracked.advance_sources-IsAdvanced cursor.rendered_frames l.entries l.sources s.tracked
            s.bounded in
        let (frame, caught, there) =
          Chained.capture-output_of s.first l.next_master_frame position l.entries
            l.last_rendered_sample s.chained (ground (arith, s.begun)) (ground arith) in
        record {
          after = (advance_sources cursor.rendered_frames l.entries l.sources).0;
          last = some frame;
          grows = a.grows;
          bounded = a.bounded;
          result =
              advance_pair position l (advance_sources cursor.rendered_frames l.entries l.sources)
                (some frame) a.done caught;
          sampled = λ first chain begun moved.
              let (other, again, where_it_is) =
                Chained.capture-output_of first l.next_master_frame position l.entries
                  l.last_rendered_sample chain (omega arith) (omega arith) in
              cc (where_it_is, again, caught);
        })
      (λ still. record {
        after = l.sources;
        last = l.last_rendered_sample;
        grows = Tracked.Grows-refl l.sources;
        bounded = s.bounded;
        result = refl;
        sampled = λ first chain begun moved. absurd (ground (arith, moved, still));
      })

pub settle-IsSound :
    (cursor : MasterPlaybackCursor) (l : MasterPlayoutLedger) (d : Sources) (last : Option Frame)
    → IsSound l
    → IsAhead cursor l
    → PendingIn l.pending_entry_id l.entries cursor.accepted_frames
    → Grows l.sources d
    → IsBounded d
    → IsSound (settle cursor (progressed l d last))
unfolding settle
settle-IsSound cursor l d last s a w g b =
    let rendered = cursor.rendered_frames in
    let cut =
      Chained.drop_rendered-IsCut s.first l.next_master_frame rendered l.entries s.chained
        (omega (arith, s.begun, a.rendered_on)) in
    record {
      first = cut.first;
      begun = cut.begun;
      chained = cut.chained;
      live = cut.live;
      ordered = a.proper;
      registered = a.within;
      windowed = omega (arith, s.windowed, a.rendered_on);
      fresh =
          Chained.All-drop_rendered (λ (e : MasterLedgerEntry). e.entry_id < l.next_entry_id)
            rendered l.entries s.fresh;
      waiting =
          PendingIn-drop_rendered rendered l.pending_entry_id l.entries cursor.accepted_frames
            a.proper w;
      tracked =
          Chained.All-drop_rendered (Tracks d) rendered l.entries
            (Tracked.All-Tracks-Grows l.sources d l.entries g s.tracked);
      bounded = b;
      whole = Chained.All-drop_rendered IsCutEntry rendered l.entries s.whole;
    }

pub IsAhead-mark_covered :
    (allow : Bool) (cursor : MasterPlaybackCursor) (l : MasterPlayoutLedger)
    → IsAhead cursor l
    → IsAhead cursor (mark_covered allow cursor l)
unfolding mark_covered
IsAhead-mark_covered allow cursor l a = record {
  same_epoch = a.same_epoch;
  accepted_on = a.accepted_on;
  rendered_on = a.rendered_on;
  within = a.within;
  proper = a.proper;
}
