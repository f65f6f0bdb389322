-- ===== src/Audio/Ledger/Survivors.antt =====
-- remix of features/audio/ledger.py keeps the audio that has not been rendered, and that alone.
use cywl_oopz.Audio.Ledger.Chained.{Chain, Live}
use mathlib.Core.Path.{ap₂}
use cywl_oopz.Prelude.{
  ap, ◌∙◌, refl, ℕ, ◌+◌, ◌-◌, ◌≡◌, Option, none, some, List, [], ◌∷◌, ◌++◌, arith, leb, All, false,
  ok, Result,
}
use cywl_oopz.Audio.Slices.{LedgerError, Frame, SourceSlice, SourceKey, block_frames}
use cywl_oopz.Audio.SourceQueue.{AudioSourceKind, music, voice}
use cywl_oopz.Audio.Ledger.Values.{MasterLedgerEntry, ReplaySegment, present, make_segment}
use cywl_oopz.Audio.Ledger.Remixing.{survivor, survivors, retain, longest, add_segment}
use cywl_oopz.Audio.Ledger.Sound.{Filled}
use cywl_oopz.Audio.Ledger.Frames.{
  PlacedFrame, placed, lane_frames, unrendered, surviving_slice-IsSurviving,
}

abbrev lane_of : AudioSourceKind → ReplaySegment → Option SourceSlice
lane_of music g = g.music
lane_of voice g = g.voice

abbrev pub segment_frames : ℕ → AudioSourceKind → Option ReplaySegment → List PlacedFrame
segment_frames start kind none = []
segment_frames start kind (some g) = lane_frames start (lane_of kind g)

abbrev segment : Option SourceSlice → Option SourceSlice → ReplaySegment
segment m v = record { frame_count = longest (present m v); music = m; voice = v }

-- What survives of an entry: both lanes in their places, or nothing where nothing is left of them.
pub record IsSurvivor (discard : List SourceKey) (rendered : ℕ) (e : MasterLedgerEntry)
    (r : Result LedgerError (Option ReplaySegment)) : Type 0 where
  pub segment : Option ReplaySegment
  pub result : r ≡ ok segment
  pub music_frames :
      segment_frames (e.master_start_frame + (rendered - e.master_start_frame)) music segment
      ≡ unrendered discard rendered e.master_start_frame e.music
  pub voice_frames :
      segment_frames (e.master_start_frame + (rendered - e.master_start_frame)) voice segment
      ≡ unrendered discard rendered e.master_start_frame e.voice

-- Slices that are not empty make a segment.
retain_lem :
    (m v : Option SourceSlice)
    → All Filled (present m none)
    → All Filled (present v none)
    → (g : Option ReplaySegment) × (retain m v ≡ ok g)
      × ((start : ℕ) → segment_frames start music g ≡ lane_frames start m)
      × ((start : ℕ) → segment_frames start voice g ≡ lane_frames start v)
unfolding retain make_segment
retain_lem none none a b = (none, refl, λ start. refl, λ start. refl)
retain_lem none (some v) a b =
    (some (segment none (some v)), ground arith, λ start. refl, λ start. refl)
retain_lem (some m) none a b =
    (some (segment (some m) none), ground arith, λ start. refl, λ start. refl)
retain_lem (some m) (some v) a b =
    (some (segment (some m) (some v)), ground arith, λ start. refl, λ start. refl)

-- A block that is not rendered to its end.
abbrev pub Unfinished : ℕ → MasterLedgerEntry → Type 0
Unfinished rendered e = Live rendered e × (e.frame_count ≡ block_frames)

pub Chain-Unfinished :
    (rendered first next : ℕ) (l : List MasterLedgerEntry)
    → Chain first l next
    → All (Live rendered) l
    → All (Unfinished rendered) l
Chain-Unfinished rendered first next [] c h = tt
Chain-Unfinished rendered first next (e ∷ l) c h =
    ((h.0, c.1), Chain-Unfinished rendered (first + block_frames) next l c.3 h.1)

-- Of an entry that is not rendered to its end, what has not been rendered survives.
survivor-IsSurvivor :
    (discard : List SourceKey) (rendered : ℕ) (e : MasterLedgerEntry)
    → Unfinished rendered e
    → IsSurvivor discard rendered e (survivor discard rendered e)
unfolding survivor
survivor-IsSurvivor discard rendered e live =
    let m = surviving_slice-IsSurviving discard rendered e.master_start_frame e.music in
    let v = surviving_slice-IsSurviving discard rendered e.master_start_frame e.voice in
    let (g, kept, music_kept, voice_kept) = retain_lem m.left v.left m.whole v.whole in
    let part : leb e.frame_count (rendered - e.master_start_frame) ≡ false =
      ground (arith, live.0, live.1) in
    let start = e.master_start_frame + (rendered - e.master_start_frame) in
    record {
      segment = g;
      result = rw (part, m.result, v.result) (rw kept);
      music_frames = music_kept start ∙ m.frames;
      voice_frames = voice_kept start ∙ v.frames;
    }

-- Frames with their numbers in their sources, the places left out.
abbrev pub numbered_frames : List PlacedFrame → List (ℕ × Frame)
numbered_frames [] = []
numbered_frames ((place, number, x) ∷ l) = (number, x) ∷ numbered_frames l

abbrev pub plan_frames : AudioSourceKind → List ReplaySegment → List (ℕ × Frame)
plan_frames kind [] = []
plan_frames kind (g ∷ l) = numbered_frames (lane_frames 0 (lane_of kind g)) ++ plan_frames kind l

abbrev pub entry_lane : AudioSourceKind → MasterLedgerEntry → Option SourceSlice
entry_lane music e = e.music
entry_lane voice e = e.voice

abbrev pub unrendered_audio :
    List SourceKey → ℕ → AudioSourceKind → List MasterLedgerEntry → List (ℕ × Frame)
unrendered_audio discard rendered kind [] = []
unrendered_audio discard rendered kind (e ∷ l) =
    numbered_frames (unrendered discard rendered e.master_start_frame (entry_lane kind e))
    ++ unrendered_audio discard rendered kind l

numbered-placed :
    (p r q : ℕ) (xs : List Frame)
    → numbered_frames (placed p q xs) ≡ numbered_frames (placed r q xs)
numbered-placed p r q [] = refl
numbered-placed p r q (x ∷ xs) = ap (λ l. (q, x) ∷ l) (numbered-placed (p + 1) (r + 1) (q + 1) xs)

numbered-lane :
    (a b : ℕ) (s : Option SourceSlice)
    → numbered_frames (lane_frames a s) ≡ numbered_frames (lane_frames b s)
numbered-lane a b none = refl
numbered-lane a b (some s) =
    numbered-placed (a + s.master_offset_frames) (b + s.master_offset_frames) s.source_start_frame
      s.samples

segment-IsSurvivor :
    (discard : List SourceKey) (rendered : ℕ) (kind : AudioSourceKind) (e : MasterLedgerEntry)
    (r : Result LedgerError (Option ReplaySegment)) (v : IsSurvivor discard rendered e r)
    → segment_frames (e.master_start_frame + (rendered - e.master_start_frame)) kind v.segment
      ≡ unrendered discard rendered e.master_start_frame (entry_lane kind e)
segment-IsSurvivor discard rendered music e r v = v.music_frames
segment-IsSurvivor discard rendered voice e r v = v.voice_frames

plan-add_segment :
    (kind : AudioSourceKind) (start : ℕ) (g : Option ReplaySegment) (l : List ReplaySegment)
    → plan_frames kind (add_segment g l)
      ≡ numbered_frames (segment_frames start kind g) ++ plan_frames kind l
plan-add_segment kind start none l = refl
plan-add_segment kind start (some g) l =
    ap (λ x. x ++ plan_frames kind l) (numbered-lane 0 start (lane_of kind g))

pub survivors-unrendered :
    (discard : List SourceKey) (rendered : ℕ) (l : List MasterLedgerEntry)
    → All (Unfinished rendered) l
    → (segments : List ReplaySegment) × (survivors discard rendered l ≡ ok segments)
      × ((kind : AudioSourceKind)
          → plan_frames kind segments ≡ unrendered_audio discard rendered kind l)
unfolding survivors
survivors-unrendered discard rendered [] live = ([], refl, λ kind. refl)
survivors-unrendered discard rendered (e ∷ l) (now, later) =
    let v = survivor-IsSurvivor discard rendered e now in
    let (segments, found, frames) = survivors-unrendered discard rendered l later in
    let start = e.master_start_frame + (rendered - e.master_start_frame) in
    (
      add_segment v.segment segments,
      rw (v.result, found) refl,
      λ kind.
          plan-add_segment kind start v.segment segments
          ∙ ap₂ (λ x y. numbered_frames x ++ y)
              (segment-IsSurvivor discard rendered kind e (survivor discard rendered e) v)
              (frames kind),
    )
