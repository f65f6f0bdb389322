-- ===== src/Audio/Ledger/Frames.antt =====
-- trim_master_prefix of features/audio/models.py keeps the frames that are not rendered.
use native.Mathlib.Nat.{add-zero}
use cywl_oopz.Prelude.{
  ap, sym, ◌∙◌, if◌then◌else◌, refl, ℕ, ◌+◌, ◌-◌, ◌≤◌, ◌≡◌, inl, inr, Option, none, some, List, [],
  ◌∷◌, arith, leb, All, keep, false, Bool-cases, ok, length, Result, drop, suc, zero, length-drop,
}
use cywl_oopz.Audio.Slices.{
  LedgerError, Frame, SourceSlice, SourceKey, from_slice, trim_master_prefix, slice_frames,
  consumed_frames,
}
use cywl_oopz.Audio.Ledger.Values.{present}
use cywl_oopz.Audio.Ledger.Remixing.{surviving_slice, has_key}
use cywl_oopz.Audio.Ledger.Sound.{Filled}

-- A frame with its place in the master output and its number in its source.
abbrev pub PlacedFrame : Type 0
PlacedFrame = ℕ × ℕ × Frame

abbrev pub placed : ℕ → ℕ → List Frame → List PlacedFrame
placed place number [] = []
placed place number (x ∷ xs) = (place, number, x) ∷ placed (place + 1) (number + 1) xs

-- The frames of a lane whose segment begins at a place.
abbrev pub lane_frames : ℕ → Option SourceSlice → List PlacedFrame
lane_frames start none = []
lane_frames start (some s) = placed (start + s.master_offset_frames) s.source_start_frame s.samples

-- The frames of a lane that are not rendered, but for the sources that are discarded.
abbrev pub unrendered : List SourceKey → ℕ → ℕ → Option SourceSlice → List PlacedFrame
unrendered discard rendered start none = []
unrendered discard rendered start (some s) =
    if has_key (from_slice s) discard
    then []
    else keep (λ (f : PlacedFrame). leb rendered f.0) (lane_frames start (some s))

drop-nil : (n : ℕ) → drop {A = Frame} n [] ≡ []
drop-nil zero = refl
drop-nil (suc n) = refl

keep-placed :
    (rendered place number : ℕ) (xs : List Frame)
    → keep (λ (f : PlacedFrame). leb rendered f.0) (placed place number xs)
      ≡ placed
          (place + (rendered - place))
          (number + (rendered - place))
          (drop (rendered - place) xs)
keep-placed rendered place number [] = rw (drop-nil (rendered - place))
keep-placed rendered place number (x ∷ xs) = elim (Bool-cases (leb rendered place)) [
  | inl later ↦
      let here : rendered - place ≡ 0 = ground arith in
      let there : rendered - (place + 1) ≡ 0 = ground arith in
      let rest = keep-placed rendered (place + 1) (number + 1) xs in
      rw (later, here, add-zero place, add-zero number)
        (ap (λ l. (place, number, x) ∷ l)
          (rw (there, add-zero (place + 1), add-zero (number + 1)) at rest))
  | inr earlier ↦
      let here : rendered - place ≡ suc (rendered - (place + 1)) = ground arith in
      let p : place + suc (rendered - (place + 1)) ≡ place + 1 + (rendered - (place + 1)) =
        omega arith in
      let q : number + suc (rendered - (place + 1)) ≡ number + 1 + (rendered - (place + 1)) =
        omega arith in
      rw (earlier, here, p, q) (keep-placed rendered (place + 1) (number + 1) xs)
]

placed-nil : (p q : ℕ) (xs : List Frame) → length xs ≡ 0 → placed p q xs ≡ []
placed-nil p q [] h = refl
placed-nil p q (x ∷ xs) h = absurd (omega (arith, h))

-- A slice that survives, and what it is cut to.
pub record IsSurviving (discard : List SourceKey) (rendered start : ℕ) (lane : Option SourceSlice)
    (r : Result LedgerError (Option SourceSlice)) : Type 0 where
  pub left : Option SourceSlice
  pub result : r ≡ ok left
  pub whole : All Filled (present left none)
  pub frames :
      lane_frames (start + (rendered - start)) left ≡ unrendered discard rendered start lane

pub trimmed-frames :
    (rendered start : ℕ) (s : SourceSlice)
    → slice_frames s ≤ consumed_frames (rendered - start) s
    → keep (λ (f : PlacedFrame). leb rendered f.0) (lane_frames start (some s)) ≡ []
trimmed-frames rendered start s h =
    keep-placed rendered (start + s.master_offset_frames) s.source_start_frame s.samples
    ∙ placed-nil _ _ (drop (rendered - (start + s.master_offset_frames)) s.samples)
        (omega (arith, h, length-drop {0} (rendered - (start + s.master_offset_frames)) s.samples))

-- What trim_master_prefix leaves of a slice that is not over.
abbrev trimmed : ℕ → SourceSlice → SourceSlice
trimmed prefix s = record s {
  source_start_frame = s.source_start_frame + consumed_frames prefix s;
  master_offset_frames = s.master_offset_frames - prefix;
  samples = drop (consumed_frames prefix s) s.samples;
}

trim_trimmed :
    (prefix : ℕ) (s : SourceSlice)
    → leb (slice_frames s) (consumed_frames prefix s) ≡ false
    → (trim_master_prefix prefix s ≡ ok (some (trimmed prefix s))) × Filled (trimmed prefix s)
unfolding trim_master_prefix
trim_trimmed prefix s part =
    let n = length-drop (consumed_frames prefix s) s.samples in
    (ground (arith, n), ground (arith, n))

trim-IsSurviving :
    (discard : List SourceKey) (rendered start : ℕ) (s : SourceSlice)
    → has_key (from_slice s) discard ≡ false
    → leb (slice_frames s) (consumed_frames (rendered - start) s) ≡ false
    → IsSurviving discard rendered start (some s) (trim_master_prefix (rendered - start) s)
trim-IsSurviving discard rendered start s kept part =
    let (result, cut) = trim_trimmed (rendered - start) s part in
    let offset = s.master_offset_frames in
    let p : start + (rendered - start) + (offset - (rendered - start))
        ≡ start + offset + (rendered - (start + offset)) =
      omega arith in
    let q : rendered - start - offset ≡ rendered - (start + offset) = omega arith in
    record {
      left = some (trimmed (rendered - start) s);
      result = result;
      whole = (cut, tt);
      frames =
          rw (kept, p, q)
            (sym (keep-placed rendered (start + offset) s.source_start_frame s.samples));
    }

pub surviving_slice-IsSurviving :
    (discard : List SourceKey) (rendered start : ℕ) (lane : Option SourceSlice)
    → IsSurviving discard rendered start lane (surviving_slice discard (rendered - start) lane)
unfolding surviving_slice
surviving_slice-IsSurviving discard rendered start none = record {
  left = none;
  result = refl;
  whole = tt;
  frames = refl;
}
surviving_slice-IsSurviving discard rendered start (some s) =
    elim (Bool-cases (has_key (from_slice s) discard)) [
      | inl dropped ↦
          rw dropped (record { left = none; result = refl; whole = tt; frames = rw dropped })
      | inr kept ↦
          rw kept elim (Bool-cases (leb (slice_frames s) (consumed_frames (rendered - start) s))) [
            | inl over ↦ rw over (record {
              left = none;
              result = refl;
              whole = tt;
              frames = rw kept (sym (trimmed-frames rendered start s (ground arith)));
            })
            | inr part ↦ trim-IsSurviving discard rendered start s kept part
          ]
    ]
