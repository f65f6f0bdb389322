-- ===== src/Audio/Ledger/Remixed.antt =====
-- What remix of features/audio/ledger.py hands over, of the ledger as it was before.
use mathlib.Core.Path.{◌∙◌, subst, sym}
use cywl_oopz.Audio.Ledger.Reconciling.{
  settle, mark_covered, check_pending, drop_rendered, accept_covered,
}
use cywl_oopz.Prelude.{
  ap, get_elem?, leb, refl, ℕ, ◌+◌, ◌-◌, ◌≤◌, ◌<◌, ◌≡◌, inl, inr, Option, none, some, List, [], ◌∷◌,
  arith, All, map, true, Bool-cases, ok, Result,
}
use cywl_oopz.Audio.Slices.{
  block_frames, SourceSlice, SourceKey, from_slice, MasterPlaybackCursor, LedgerError, key_eq,
}
use cywl_oopz.Audio.SourceQueue.{AudioSourceKind, music, voice}
use cywl_oopz.Audio.Ledger.Values.{
  RemixPlan, MasterPlayoutLedger, MasterLedgerEntry, master_end, present,
}
use cywl_oopz.Audio.Ledger.Remixing.{plan, has_key, remix, make_plan}
use cywl_oopz.Audio.Ledger.Progress.{progressed}
use cywl_oopz.Audio.Ledger.Marked.{IsAhead}
use cywl_oopz.Audio.Ledger.Reconciled.{checks, reconcile-IsReconciled}
use cywl_oopz.Audio.Ledger.Answers.{source_cursors_total, check_cursor-ok}
use cywl_oopz.Audio.Ledger.Frames.{unrendered, trimmed-frames}
use cywl_oopz.Audio.Ledger.Survivors.{
  unrendered_audio, plan_frames, survivors-unrendered, Chain-Unfinished, entry_lane,
}
use cywl_oopz.Audio.Ledger.Chained.{All-accept_covered, Chain-accept_covered, Chain, output_of}
use cywl_oopz.Audio.Ledger.Sound.{IsSound, Cut, IsCutEntry}

abbrev Fits : Option SourceSlice → Type 0
Fits none = Unit
Fits (some s) = Cut s

music-Fits : (m v : Option SourceSlice) → All Cut (present m v) → Fits m
music-Fits none v c = tt
music-Fits (some m) none c = c.0
music-Fits (some m) (some v) c = c.0

voice-Fits : (m v : Option SourceSlice) → All Cut (present m v) → Fits v
voice-Fits m none c = tt
voice-Fits none (some v) c = c.0
voice-Fits (some m) (some v) c = c.1.0

lane-Fits :
    (kind : AudioSourceKind) (e : MasterLedgerEntry) → IsCutEntry e → Fits (entry_lane kind e)
lane-Fits music e h = music-Fits e.music e.voice h
lane-Fits voice e h = voice-Fits e.music e.voice h

-- A block that is rendered to its end has nothing left.
over-unrendered :
    (discard : List SourceKey) (rendered start : ℕ) (lane : Option SourceSlice)
    → Fits lane
    → start + block_frames ≤ rendered
    → unrendered discard rendered start lane ≡ []
over-unrendered discard rendered start none f h = refl
over-unrendered discard rendered start (some s) f h =
    elim (Bool-cases (has_key (from_slice s) discard)) [
      | inl dropped ↦ rw dropped
      | inr kept ↦ rw kept (trimmed-frames rendered start s (omega (arith, f.1)))
    ]

unrendered_audio-drop_rendered :
    (discard : List SourceKey) (rendered first next : ℕ) (kind : AudioSourceKind)
    (l : List MasterLedgerEntry)
    → Chain first l next
    → All IsCutEntry l
    → unrendered_audio discard rendered kind (drop_rendered rendered l)
      ≡ unrendered_audio discard rendered kind l
unfolding drop_rendered
unrendered_audio-drop_rendered discard rendered first next kind [] c w = refl
unrendered_audio-drop_rendered discard rendered first next kind (e ∷ l) c w =
    elim (Bool-cases (leb (master_end e) rendered)) [
      | inl over ↦
          let nothing =
            over-unrendered discard rendered e.master_start_frame (entry_lane kind e)
              (lane-Fits kind e w.0) (ground (arith, c.1)) in
          rw (over, nothing)
            (unrendered_audio-drop_rendered discard rendered (first + block_frames) next kind l c.3
              w.1)
      | inr live ↦ rw live
    ]

lane-accept_covered :
    (frames : ℕ) (kind : AudioSourceKind) (e : MasterLedgerEntry)
    → (entry_lane kind (accept_covered frames e) ≡ entry_lane kind e)
      × ((accept_covered frames e).master_start_frame ≡ e.master_start_frame)
      × ((accept_covered frames e).output_samples ≡ e.output_samples)
lane-accept_covered frames kind e = ground arith

unrendered_audio-accept_covered :
    (discard : List SourceKey) (rendered frames : ℕ) (kind : AudioSourceKind)
    (l : List MasterLedgerEntry)
    → unrendered_audio discard rendered kind (map (accept_covered frames) l)
      ≡ unrendered_audio discard rendered kind l
unrendered_audio-accept_covered discard rendered frames kind [] = refl
unrendered_audio-accept_covered discard rendered frames kind (e ∷ l) =
    let (lane, start, _) = lane-accept_covered frames kind e in
    rw (lane, start, unrendered_audio-accept_covered discard rendered frames kind l)

output_of-accept_covered :
    (frames : ℕ) (l : List MasterLedgerEntry)
    → output_of (map (accept_covered frames) l) ≡ output_of l
output_of-accept_covered frames [] = refl
output_of-accept_covered frames (e ∷ l) =
    rw ((lane-accept_covered frames music e).2, output_of-accept_covered frames l)

-- The plan of a flush at a cursor, and the ledger that it leaves.
pub record IsHandover (cursor : MasterPlaybackCursor) (discard : List SourceKey)
    (l : MasterPlayoutLedger) (first : ℕ) (r : MasterPlayoutLedger × Result LedgerError RemixPlan)
    : Type 0 where
  pub handed : RemixPlan
  pub result : r.1 ≡ ok handed
  pub old_epoch : handed.old_epoch ≡ l.epoch
  pub next_epoch : handed.next_epoch ≡ l.epoch + 1
  pub survivors :
      (kind : AudioSourceKind)
      → plan_frames kind handed.survivors
        ≡ unrendered_audio discard cursor.rendered_frames kind l.entries
  pub last_sample :
      l.master_rendered_frames < cursor.rendered_frames
      → get_elem? (output_of l.entries) (cursor.rendered_frames - 1 - first)
        ≡ handed.last_rendered_sample
  pub epoch : r.0.epoch ≡ l.epoch + 1
  pub emptied : r.0.entries ≡ []
  pub rewound : r.0.next_master_frame ≡ 0
  pub unowned : r.0.pending_entry_id ≡ none

allowed :
    (p : Option ℕ) (cursor : MasterPlaybackCursor) (l : List MasterLedgerEntry)
    → check_pending true p cursor l ≡ ok tt
allowed none cursor l = refl
allowed (some id) cursor l = refl

checks-true :
    (cursor : MasterPlaybackCursor) (l : MasterPlayoutLedger)
    → IsAhead cursor l
    → checks true cursor l ≡ ok tt
checks-true cursor l a =
    rw (check_cursor-ok cursor l a)
      (allowed l.pending_entry_id cursor (mark_covered true cursor l).entries)

-- For a cursor that goes on from the last one within the registered audio, remix closes the epoch
-- and hands over, of both lanes, every frame that is not rendered and not of a discarded source, in
-- order and once, with its number in its source; and, if the cursor has moved, the last rendered
-- sample of the master output. The ledger is then empty, in the next epoch.
pub remix-IsHandover :
    (cursor : MasterPlaybackCursor) (discard : List SourceKey) (l : MasterPlayoutLedger)
    (s : IsSound l)
    → IsAhead cursor l
    → IsHandover cursor discard l s.first (remix cursor discard l)
unfolding remix make_plan mark_covered settle
remix-IsHandover cursor discard l s a =
    let rec = reconcile-IsReconciled true cursor l s (checks-true cursor l a) in
    let rendered = cursor.rendered_frames in
    let m =
      settle cursor
        (progressed (mark_covered true cursor l) rec.progress.after rec.progress.last) in
    let sound : IsSound m =
      subst (λ (r : MasterPlayoutLedger × Result LedgerError (Unit {0})). IsSound r.0) rec.result
        rec.sound in
    let (c, cursors) = source_cursors_total m.sources sound.bounded in
    let (segments, found, frames) = survivors-unrendered discard rendered m.entries (
      Chain-Unfinished rendered sound.first m.next_master_frame m.entries sound.chained
        sound.live) in
    let covered = map (accept_covered cursor.accepted_frames) l.entries in
    record {
      handed = plan l.epoch c segments m;
      result = rw rec.result (rw (cursors, found) refl);
      old_epoch = refl;
      next_epoch = refl;
      survivors = λ kind.
          frames kind
          ∙ unrendered_audio-drop_rendered discard rendered s.first l.next_master_frame kind covered
              (Chain-accept_covered cursor.accepted_frames s.first l.next_master_frame l.entries
                s.chained)
              (All-accept_covered IsCutEntry (λ e h. h) cursor.accepted_frames l.entries s.whole)
          ∙ unrendered_audio-accept_covered discard rendered cursor.accepted_frames kind l.entries;
      last_sample = λ moved.
          ap (λ o. get_elem? o (rendered - 1 - s.first))
            (sym (output_of-accept_covered cursor.accepted_frames l.entries))
          ∙ rec.progress.sampled s.first
              (Chain-accept_covered cursor.accepted_frames s.first l.next_master_frame l.entries
                s.chained)
              s.begun moved;
      epoch = rw rec.result (rw (cursors, found) refl);
      emptied = rw rec.result (rw (cursors, found) refl);
      rewound = rw rec.result (rw (cursors, found) refl);
      unowned = rw rec.result (rw (cursors, found) refl);
    }
