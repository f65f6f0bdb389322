-- ===== src/Examples/Ledger.antt =====
-- The playout ledger's theorems at a ledger of one block, of which a third has been rendered.
use cywl_oopz.Audio.Ledger.Marked.{IsAhead}
use cywl_oopz.Audio.Ledger.Remixing.{remix}
use cywl_oopz.Audio.Ledger.Cursors.{observe, mark_accepted, SourceCursors}
use cywl_oopz.Audio.Ledger.Registering.{note_sources, register_pending}
use cywl_oopz.Prelude.{
  err, ◌↔◌, ℕ, zero, suc, ◌≡◌, refl, arith, List, [], ◌∷◌, none, some, nat_eq, ok,
}
use cywl_oopz.Prelude.Dict.{get, put}
use cywl_oopz.Audio.SourceQueue.{music}
use cywl_oopz.Audio.Slices.{ledger_error, LedgerError, Frame, SourceSlice, MasterPlaybackCursor}
use cywl_oopz.Audio.Ledger.Values.{MixedAudioBlock, MasterPlayoutLedger, empty_ledger, make_ledger}
use cywl_oopz.Audio.Ledger.Calls.{Call, registers, commits, observes, run, run-IsSound}
use cywl_oopz.Audio.Ledger.Sound.{IsSound}
use cywl_oopz.Audio.Ledger.Answers.{IsAcceptable, observe-ok_iff}
use cywl_oopz.Audio.Ledger.Remixed.{IsHandover, remix-IsHandover}

abbrev silence : ℕ → List Frame
silence zero = []
silence (suc n) = 0 ∷ silence n

abbrev slice : SourceSlice
slice = record {
  source_id = 7;
  kind = music;
  generation = 0;
  source_start_frame = 0;
  master_offset_frames = 0;
  samples = 5 ∷ 6 ∷ 8 ∷ [];
}

abbrev mixed : MixedAudioBlock
mixed = record { samples = silence 960; music = some slice; voice = none }

abbrev at : ℕ → MasterPlaybackCursor
at rendered = record {
  epoch = 0;
  accepted_frames = 960;
  rendered_frames = rendered;
  buffered_frames = 0;
}

abbrev calls : List Call
calls = registers mixed ∷ commits 0 (at 0) ∷ observes (at 1) ∷ []

abbrev playing : MasterPlayoutLedger
playing = run (empty_ledger 2_880) calls

run-IsSound_example : IsSound playing
unfolding make_ledger
run-IsSound_example = run-IsSound 2_880 (empty_ledger 2_880) calls refl (omega arith)

playing-IsSound : IsSound playing
unfolding make_ledger
playing-IsSound = run-IsSound 2_880 (empty_ledger 2_880) calls refl (omega arith)

playing-IsAhead : IsAhead (at 1) playing
unfolding run register_pending mark_accepted observe note_sources get put
playing-IsAhead = record {
  same_epoch = refl;
  accepted_on = omega arith;
  rendered_on = omega arith;
  within = omega arith;
  proper = omega arith;
}

remix-IsHandover_example :
    IsHandover (at 1) [] playing playing-IsSound.first (remix (at 1) [] playing)
remix-IsHandover_example = remix-IsHandover (at 1) [] playing playing-IsSound playing-IsAhead

observe-ok_iff_example :
    (((c : SourceCursors) × ((observe (at 2) playing).1 ≡ ok c)) ↔ IsAcceptable (at 2) playing)
    × ((e : LedgerError) → (observe (at 2) playing).1 ≡ err e → e ≡ ledger_error)
observe-ok_iff_example = observe-ok_iff (at 2) playing playing-IsSound
