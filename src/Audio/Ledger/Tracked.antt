-- ===== src/Audio/Ledger/Tracked.antt =====
-- What features/audio/ledger.py keeps of the progress of its sources: cursors only grow, and none
-- renders more than it accepted.
use cywl_oopz.Audio.Ledger.Reconciling.{
  rendered_in_source, advance_sources, advance_source, advance_entry,
}
use cywl_oopz.Audio.Ledger.Registering.{note_sources, note_source_accepted, progress_of}
use cywl_oopz.Prelude.{
  refl, nat_beq, ◌+◌, leb, if_ind, ltb, max, err, ℕ, Option-cases, ok, Result, ◌≤◌, ◌≡◌, inl, inr,
  some, List, [], ◌∷◌, arith, All, Bool-cases, ==_iff, ==_refl,
}
use cywl_oopz.Prelude.Dict.{get-Values, put-Values, get, put, get-put, Values}
use cywl_oopz.Audio.Slices.{LedgerError, SourceSlice, SourceKey, from_slice, source_end, key_eq}
use cywl_oopz.Audio.Ledger.Values.{
  entry_sources, and_then, MasterLedgerEntry, Sources, SourceProgress,
}

abbrev pub Within : SourceProgress → Type 0
Within p = p.rendered_frames ≤ p.accepted_frames

abbrev pub IsBounded : Sources → Type 0
IsBounded = Values Within

-- The slice is not empty, and its frames are accounted for.
abbrev pub Known : Sources → SourceSlice → Type 0
Known d s =
    (p : SourceProgress) × (get d (from_slice s) ≡ some p) × (source_end s ≤ p.accepted_frames)

abbrev pub Below : SourceProgress → SourceProgress → Type 0
Below p q = (p.accepted_frames ≤ q.accepted_frames) × (p.rendered_frames ≤ q.rendered_frames)

-- Every source of one is a source of the other, with cursors that are no smaller.
pub Grows : Sources → Sources → Type 0
Grows d e =
    (k : SourceKey) (p : SourceProgress)
    → get d k ≡ some p
    → (q : SourceProgress) × (get e k ≡ some q) × Below p q

pub Grows-refl : (d : Sources) → Grows d d
unfolding Grows
Grows-refl d k p h = (p, h, omega arith)

pub Grows-trans : (d e f : Sources) → Grows d e → Grows e f → Grows d f
unfolding Grows
Grows-trans d e f g h k p found =
    let (q, at, below) = g k p found in
    let (r, there, above) = h k q at in (r, there, omega (arith, below, above))

pub Known-Grows : (d e : Sources) (s : SourceSlice) → Grows d e → Known d s → Known e s
unfolding Grows
Known-Grows d e s g (p, found, end) =
    let (q, at, below) = g (from_slice s) p found in (q, at, omega (arith, below, end))

pub All-Known-Grows :
    (d e : Sources) (l : List SourceSlice) → Grows d e → All (Known d) l → All (Known e) l
All-Known-Grows d e [] g h = tt
All-Known-Grows d e (s ∷ l) g h = (Known-Grows d e s g h.0, All-Known-Grows d e l g h.1)

put-Grows :
    (d : Sources) (k : SourceKey) (q : SourceProgress)
    → ((p : SourceProgress) → get d k ≡ some p → Below p q)
    → Grows d (put d k q)
unfolding Grows
put-Grows d k q h j p found = elim (Bool-cases (key_eq.beq k j)) [
  | inl same ↦ let e = (==_iff k j).0 same in (q, rw (get-put d k j q, same), h p (rw e found))
  | inr other ↦ (p, rw (get-put d k j q, other) found, omega arith)
]

get-put_self : (d : Sources) (k : SourceKey) (q : SourceProgress) → get (put d k q) k ≡ some q
get-put_self d k q = rw (get-put d k k q, ==_refl k)

-- What noting the sources of a block promises, of the sources and the result that it leaves.
pub record IsNoted (d : Sources) (l : List SourceSlice)
    (r : Sources × Result LedgerError (Unit {0})) : Type 0 where
  pub grows : Grows d r.0
  pub bounded : IsBounded d → IsBounded r.0
  pub known : r.1 ≡ ok tt → All (Known r.0) l

abbrev At : Sources → SourceKey → SourceProgress → Type 0
At d k p = (q : SourceProgress) → get d k ≡ some q → p ≡ q

progress_of-At : (d : Sources) (k : SourceKey) → At d k (progress_of d k)
progress_of-At d k q found = rw found

progress_of-Within : (d : Sources) (k : SourceKey) → IsBounded d → Within (progress_of d k)
progress_of-Within d k b = elim (Option-cases (get d k)) [
  | inl missing ↦ rw missing (omega arith)
  | inr (p, found) ↦ rw found (get-Values Within d k b found)
]

-- Writing a larger progress at a key.
module _ (d : Sources) (k : SourceKey) (p q : SourceProgress) (at : At d k p)
    (grown : Below p q) where
  raise-Grows : Grows d (put d k q)
  raise-Grows = put-Grows d k q (λ r found. rw (← at r found) grown)

  raise-bounded : Within q → IsBounded d → IsBounded (put d k q)
  raise-bounded w b = put-Values Within d k q b w

  raise-Known :
      (s : SourceSlice) → from_slice s ≡ k → source_end s ≤ q.accepted_frames → Known (put d k q) s
  raise-Known s e l = (q, rw e (get-put_self d k q), l)

note_source-IsNoted :
    (d : Sources) (s : SourceSlice) → IsNoted d (s ∷ []) (note_source_accepted s d)
unfolding note_source_accepted
note_source-IsNoted d s =
    let k = from_slice s in
    let p = progress_of d k in
    let at = progress_of-At d k in
    let q : SourceProgress = record p { accepted_frames = max p.accepted_frames (source_end s) } in
    elim (Bool-cases (ltb p.accepted_frames s.source_start_frame)) [
      | inl gap ↦ rw gap (record {
        grows = raise-Grows d k p p at (omega arith);
        bounded = λ b. raise-bounded d k p p at (omega arith) (progress_of-Within d k b) b;
        known = λ h. cc;
      })
      | inr fits ↦ rw fits (record {
        grows = raise-Grows d k p q at (omega arith);
        bounded =
            λ b. raise-bounded d k p q at (omega arith) (omega (arith, progress_of-Within d k b)) b;
        known = λ h. (raise-Known d k p q at (omega arith) s refl (omega arith), tt);
      })
    ]

-- What follows code that noted its sources, where it did not raise.
note-then :
    (d : Sources) (s : SourceSlice) (l : List SourceSlice)
    (r : Sources × Result LedgerError (Unit {0}))
    (k : Sources → Sources × Result LedgerError (Unit {0}))
    → IsNoted d (s ∷ []) r
    → ((e : Sources) → IsNoted e l (k e))
    → IsNoted d (s ∷ l) (and_then r k)
note-then d s l (e, ok u) k n next = record {
  grows = Grows-trans d e (k e).0 n.grows (next e).grows;
  bounded = λ b. (next e).bounded (n.bounded b);
  known = λ h. (Known-Grows e (k e).0 s (next e).grows (n.known refl).0, (next e).known h);
}
note-then d s l (e, err x) k n next = record {
  grows = n.grows;
  bounded = n.bounded;
  known = λ h. cc;
}

pub note_sources-IsNoted : (l : List SourceSlice) (d : Sources) → IsNoted d l (note_sources l d)
unfolding note_sources
note_sources-IsNoted [] d = record { grows = Grows-refl d; bounded = λ b. b; known = λ h. tt }
note_sources-IsNoted (s ∷ l) d =
    note-then d s l (note_source_accepted s d) (note_sources l) (note_source-IsNoted d s)
      (note_sources-IsNoted l)

-- What advancing known sources promises: it never raises.
pub record IsAdvanced (d : Sources) (r : Sources × Result LedgerError (Unit {0})) : Type 0 where
  pub grows : Grows d r.0
  pub bounded : IsBounded r.0
  pub done : r.1 ≡ ok tt

IsAdvanced-refl : (d : Sources) → IsBounded d → IsAdvanced d (d, ok tt)
IsAdvanced-refl d b = record { grows = Grows-refl d; bounded = b; done = refl }

advance-then :
    (d : Sources) (r : Sources × Result LedgerError (Unit {0}))
    (k : Sources → Sources × Result LedgerError (Unit {0}))
    → IsAdvanced d r
    → ((e : Sources) → Grows d e → IsBounded e → IsAdvanced e (k e))
    → IsAdvanced d (and_then r k)
advance-then d (e, ok u) k a next =
    let n = next e a.grows a.bounded in
    record { grows = Grows-trans d e (k e).0 a.grows n.grows; bounded = n.bounded; done = n.done }
advance-then d (e, err x) k a next = absurd (cc (a.done))

advance_source-IsAdvanced :
    (rendered start : ℕ) (s : SourceSlice) (d : Sources)
    → Known d s
    → IsBounded d
    → IsAdvanced d (advance_source rendered start s d)
unfolding advance_source
advance_source-IsAdvanced rendered start s d (p, found, end) b =
    let count = rendered_in_source rendered start s in
    let k = from_slice s in
    let high = max p.rendered_frames (s.source_start_frame + count) in
    let q : SourceProgress = record p { rendered_frames = high } in
    let within : Within q = omega (arith, get-Values Within d k b found, end) in
    let at : At d k p = λ r there. cc (found, there) in
    elim (Bool-cases (nat_beq count 0)) [
      | inl none_left ↦ rw none_left (IsAdvanced-refl d b)
      | inr some_left ↦ rw some_left (
          rw found (record {
            grows = raise-Grows d k p q at (omega arith);
            bounded = raise-bounded d k p q at (omega arith) within b;
            done = ground (arith, within);
          }))
    ]

advance_entry-IsAdvanced :
    (rendered start : ℕ) (l : List SourceSlice) (d : Sources)
    → All (Known d) l
    → IsBounded d
    → IsAdvanced d (advance_entry rendered start l d)
unfolding advance_entry
advance_entry-IsAdvanced rendered start [] d known b = IsAdvanced-refl d b
advance_entry-IsAdvanced rendered start (s ∷ l) d known b =
    advance-then d (advance_source rendered start s d) (advance_entry rendered start l)
      (advance_source-IsAdvanced rendered start s d known.0 b)
      (λ e g c. advance_entry-IsAdvanced rendered start l e (All-Known-Grows d e l g known.1) c)

-- Every slice of an entry is known.
abbrev pub Tracks : Sources → MasterLedgerEntry → Type 0
Tracks d entry = All (Known d) (entry_sources entry)

pub All-Tracks-Grows :
    (d e : Sources) (l : List MasterLedgerEntry) → Grows d e → All (Tracks d) l → All (Tracks e) l
All-Tracks-Grows d e [] g h = tt
All-Tracks-Grows d e (x ∷ l) g h =
    (All-Known-Grows d e (entry_sources x) g h.0, All-Tracks-Grows d e l g h.1)

pub advance_sources-IsAdvanced :
    (rendered : ℕ) (l : List MasterLedgerEntry) (d : Sources)
    → All (Tracks d) l
    → IsBounded d
    → IsAdvanced d (advance_sources rendered l d)
unfolding advance_sources
advance_sources-IsAdvanced rendered [] d tracked b = IsAdvanced-refl d b
advance_sources-IsAdvanced rendered (x ∷ l) d tracked b =
    if_ind (IsAdvanced d) (leb rendered x.master_start_frame) (λ later. IsAdvanced-refl d b)
      (λ earlier.
        advance-then d (advance_entry rendered x.master_start_frame (entry_sources x) d)
          (advance_sources rendered l)
          (advance_entry-IsAdvanced rendered x.master_start_frame (entry_sources x) d tracked.0 b)
          (λ e g c. advance_sources-IsAdvanced rendered l e (All-Tracks-Grows d e l g tracked.1) c))
