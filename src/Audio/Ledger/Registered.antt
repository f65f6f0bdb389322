-- ===== src/Audio/Ledger/Registered.antt =====
-- register_pending of features/audio/ledger.py keeps the invariant, whether it raises or not.
use cywl_oopz.Prelude.{
  refl, ℕ, ◌+◌, ◌-◌, ◌≤◌, ◌<◌, ◌≡◌, none, List, [], ◌∷◌, arith, All, ok, err, length, All-append,
  Result,
}
use cywl_oopz.Audio.Slices.{block_frames, LedgerError}
use cywl_oopz.Audio.Ledger.Values.{
  MasterPlayoutLedger, MasterLedgerEntry, MixedAudioBlock, Sources, present,
}
use cywl_oopz.Audio.Ledger.Registering.{
  register_pending, check_register, note_sources, appended, numbered, registered, new_entry,
}
use cywl_oopz.Audio.Ledger.Tracked.{IsNoted, note_sources-IsNoted, All-Tracks-Grows, Tracks}
use cywl_oopz.Audio.Ledger.Chained.{Chain-append, Live}
use cywl_oopz.Audio.Ledger.Sound.{IsSound, Cut, IsCutEntry, find-append_new, and_then_ind}

abbrev pub IsMixed : MixedAudioBlock → Type 0
IsMixed mixed = All Cut (present mixed.music mixed.voice)

-- What the checks of register_pending let through.
pub record IsRoom (mixed : MixedAudioBlock) (l : MasterPlayoutLedger) : Type 0 where
  pub free : l.pending_entry_id ≡ none
  pub full_block : length mixed.samples ≡ block_frames
  pub room : l.next_master_frame - l.master_rendered_frames + block_frames ≤ l.max_buffer_frames

pub check_register-IsRoom :
    (mixed : MixedAudioBlock) (l : MasterPlayoutLedger)
    → check_register mixed l ≡ ok tt
    → IsRoom mixed l
unfolding check_register
check_register-IsRoom mixed l h = record {
  free = ground arith;
  full_block = ground arith;
  room = ground arith;
}

fresh_mono :
    (n : ℕ) (l : List MasterLedgerEntry)
    → All (λ (e : MasterLedgerEntry). e.entry_id < n) l
    → All (λ (e : MasterLedgerEntry). e.entry_id < n + 1) l
fresh_mono n [] h = tt
fresh_mono n (e ∷ l) h = (omega (arith, h.0), fresh_mono n l h.1)

module _ (mixed : MixedAudioBlock) (l : MasterPlayoutLedger) (d : Sources) (s : IsSound l) where
  numbered-IsSound :
      (r : Result LedgerError (Unit {0}))
      → IsNoted l.sources (present mixed.music mixed.voice) (d, r)
      → IsSound (numbered l d)
  numbered-IsSound r n = record {
    first = s.first;
    begun = s.begun;
    chained = s.chained;
    live = s.live;
    ordered = s.ordered;
    registered = s.registered;
    windowed = s.windowed;
    fresh = fresh_mono l.next_entry_id l.entries s.fresh;
    waiting = s.waiting;
    tracked = All-Tracks-Grows l.sources d l.entries n.grows s.tracked;
    bounded = n.bounded s.bounded;
    whole = s.whole;
  }

  appended-IsSound :
      IsMixed mixed
      → IsRoom mixed l
      → IsNoted l.sources (present mixed.music mixed.voice) (d, ok tt)
      → IsSound (appended mixed l d)
  appended-IsSound whole fits n =
      let e = new_entry mixed l in
      record {
        first = s.first;
        begun = s.begun;
        chained =
            Chain-append s.first l.next_master_frame l.entries e s.chained refl refl
              fits.full_block;
        live =
            All-append (Live l.master_rendered_frames) l.entries (e ∷ []) s.live
              (omega (arith, s.ordered, s.registered), tt);
        ordered = s.ordered;
        registered = omega (arith, s.registered);
        windowed = omega (arith, fits.room, s.ordered, s.registered);
        fresh =
            All-append (λ (x : MasterLedgerEntry). x.entry_id < l.next_entry_id + 1) l.entries
              (e ∷ []) (fresh_mono l.next_entry_id l.entries s.fresh) (omega arith, tt);
        waiting = (
          e,
          find-append_new l.next_entry_id l.entries e s.fresh refl,
          omega (arith, s.registered),
        );
        tracked =
            All-append (Tracks d) l.entries (e ∷ [])
              (All-Tracks-Grows l.sources d l.entries n.grows s.tracked) (n.known refl, tt);
        bounded = n.bounded s.bounded;
        whole = All-append IsCutEntry l.entries (e ∷ []) s.whole (whole, tt);
      }

registered-IsSound :
    (mixed : MixedAudioBlock) (l : MasterPlayoutLedger)
    (r : Sources × Result LedgerError (Unit {0}))
    → IsSound l
    → IsMixed mixed
    → IsRoom mixed l
    → IsNoted l.sources (present mixed.music mixed.voice) r
    → IsSound (registered mixed l r).0
registered-IsSound mixed l (d, ok u) s whole fits n = appended-IsSound mixed l d s whole fits n
registered-IsSound mixed l (d, err e) s whole fits n = numbered-IsSound mixed l d s (err e) n

pub register_pending-IsSound :
    (mixed : MixedAudioBlock) (l : MasterPlayoutLedger)
    → IsMixed mixed
    → IsSound l
    → IsSound (register_pending mixed l).0
unfolding register_pending
register_pending-IsSound mixed l whole s =
    let sources = present mixed.music mixed.voice in
    and_then_ind IsSound l (check_register mixed l)
      (λ m. registered mixed m (note_sources sources m.sources)) s
      (λ h.
        registered-IsSound mixed l (note_sources sources l.sources) s whole
          (check_register-IsRoom mixed l h) (note_sources-IsNoted sources l.sources))
