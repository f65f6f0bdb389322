-- ===== src/Audio/Ledger/Chained.antt =====
-- The entries of features/audio/ledger.py lie end to end in the master output.
use native.Mathlib.Nat.{zero-add, suc-add}
use cywl_oopz.Prelude.{
  zero, suc, nat_beq, suc, refl, ℕ, ◌+◌, ◌-◌, ◌≤◌, ◌<◌, ◌≡◌, inl, inr, Option, some, List, [], ◌∷◌,
  ◌++◌, arith, leb, All, map, Bool-cases, ok, length, get_elem?, if_ind,
}
use cywl_oopz.Audio.Slices.{Frame, block_frames}
use cywl_oopz.Audio.Ledger.Values.{MasterLedgerEntry, master_end}
use cywl_oopz.Audio.Ledger.Registering.{accept_entry, set_accepted}
use cywl_oopz.Audio.Ledger.Reconciling.{accept_covered, is_covered, drop_rendered, capture}

-- The entries fill the master frames from the first to the next one, a block each.
abbrev pub Chain : ℕ → List MasterLedgerEntry → ℕ → Type 0
Chain first [] next = first ≡ next
Chain first (e ∷ l) next =
    (e.master_start_frame ≡ first)
    × (e.frame_count ≡ block_frames)
    × (length e.output_samples ≡ block_frames)
    × Chain (first + block_frames) l next

-- Not rendered to its end.
abbrev pub Live : ℕ → MasterLedgerEntry → Type 0
Live rendered e = rendered < master_end e

-- What set_accepted leaves holds of all entries, whichever are accepted.
module _ {κ} (P : MasterLedgerEntry → Type κ)
    (keep : (e : MasterLedgerEntry) → P e → P (set_accepted e)) where
  pub All-accept_covered :
      (frames : ℕ) (l : List MasterLedgerEntry) → All P l → All P (map (accept_covered frames) l)
  All-accept_covered frames [] h = tt
  All-accept_covered frames (e ∷ l) h =
      (if_ind P (is_covered frames e) (λ _. keep e h.0) (λ _. h.0), All-accept_covered frames l h.1)

  pub All-accept_entry : (id : ℕ) (l : List MasterLedgerEntry) → All P l → All P (accept_entry id l)
  unfolding accept_entry
  All-accept_entry id [] h = tt
  All-accept_entry id (e ∷ l) h =
      if_ind (All P) (nat_beq e.entry_id id) (λ _. (keep e h.0, h.1))
        (λ _. (h.0, All-accept_entry id l h.1))

pub All-drop_rendered {κ} :
    (P : MasterLedgerEntry → Type κ) (frames : ℕ) (l : List MasterLedgerEntry)
    → All P l
    → All P (drop_rendered frames l)
unfolding drop_rendered
All-drop_rendered P frames [] h = tt
All-drop_rendered P frames (e ∷ l) h =
    if_ind (All P) (leb (master_end e) frames) (λ _. All-drop_rendered P frames l h.1) (λ _. h)

pub Chain-accept_covered :
    (frames first next : ℕ) (l : List MasterLedgerEntry)
    → Chain first l next
    → Chain first (map (accept_covered frames) l) next
Chain-accept_covered frames first next [] c = c
Chain-accept_covered frames first next (e ∷ l) (s, n, o, c) =
    let rest = Chain-accept_covered frames (first + block_frames) next l c in
    if_ind (λ (x : MasterLedgerEntry). Chain first (x ∷ map (accept_covered frames) l) next)
      (is_covered frames e) (λ _. (s, n, o, rest)) (λ _. (s, n, o, rest))

pub Chain-accept_entry :
    (id first next : ℕ) (l : List MasterLedgerEntry)
    → Chain first l next
    → Chain first (accept_entry id l) next
unfolding accept_entry
Chain-accept_entry id first next [] c = c
Chain-accept_entry id first next (e ∷ l) (s, n, o, c) =
    if_ind (λ (r : List MasterLedgerEntry). Chain first r next) (nat_beq e.entry_id id)
      (λ _. (s, n, o, c)) (λ _. (s, n, o, Chain-accept_entry id (first + block_frames) next l c))

pub Chain-append :
    (first next : ℕ) (l : List MasterLedgerEntry) (e : MasterLedgerEntry)
    → Chain first l next
    → e.master_start_frame ≡ next
    → e.frame_count ≡ block_frames
    → length e.output_samples ≡ block_frames
    → Chain first (l ++ e ∷ []) (next + block_frames)
Chain-append first next [] e c s n o = (omega (arith, c), n, o, omega (arith, c))
Chain-append first next (x ∷ l) e (a, b, d, c) s n o =
    (a, b, d, Chain-append (first + block_frames) next l e c s n o)

pub Chain-le : (first next : ℕ) (l : List MasterLedgerEntry) → Chain first l next → first ≤ next
Chain-le first next [] c = omega (arith, c)
Chain-le first next (e ∷ l) c = omega (arith, Chain-le (first + block_frames) next l c.3)

pub Chain-Live :
    (first next rendered : ℕ) (l : List MasterLedgerEntry)
    → Chain first l next
    → rendered < first + block_frames
    → All (Live rendered) l
Chain-Live first next rendered [] c h = tt
Chain-Live first next rendered (e ∷ l) c h = (
  omega (arith, c.0, c.1, h),
  Chain-Live (first + block_frames) next rendered l c.3 (omega arith),
)

-- What is left after dropping the rendered entries.
pub record IsCut (rendered next : ℕ) (l : List MasterLedgerEntry) : Type 0 where
  pub first : ℕ
  pub begun : first ≤ rendered
  pub chained : Chain first l next
  pub live : All (Live rendered) l

pub drop_rendered-IsCut :
    (first next rendered : ℕ) (l : List MasterLedgerEntry)
    → Chain first l next
    → first ≤ rendered
    → IsCut rendered next (drop_rendered rendered l)
unfolding drop_rendered
drop_rendered-IsCut first next rendered [] c h = record {
  first = first;
  begun = h;
  chained = c;
  live = tt;
}
drop_rendered-IsCut first next rendered (e ∷ l) c h =
    if_ind (IsCut rendered next) (leb (master_end e) rendered)
      (λ over.
        drop_rendered-IsCut (first + block_frames) next rendered l c.3 (ground (arith, c.0, c.1)))
      (λ live. record {
        first = first;
        begun = h;
        chained = c;
        live = Chain-Live first next rendered (e ∷ l) c (ground (arith, c.0, c.1));
      })

-- The master output of the entries.
abbrev pub output_of : List MasterLedgerEntry → List Frame
output_of [] = []
output_of (e ∷ l) = e.output_samples ++ output_of l

get_elem?-append_left {ℓ} :
    {A : Type ℓ} (xs ys : List A) (i : ℕ)
    → i < length xs
    → (x : A) × (get_elem? xs i ≡ some x) × (get_elem? (xs ++ ys) i ≡ some x)
get_elem?-append_left [] ys i h = absurd (omega arith)
get_elem?-append_left (x ∷ xs) ys zero h = (x, refl, refl)
get_elem?-append_left (x ∷ xs) ys (suc i) h = get_elem?-append_left xs ys i (omega arith)

get_elem?-append_right {ℓ} :
    {A : Type ℓ} (xs ys : List A) (i : ℕ) → get_elem? (xs ++ ys) (length xs + i) ≡ get_elem? ys i
get_elem?-append_right [] ys i = rw zero-add
get_elem?-append_right (x ∷ xs) ys i = rw suc-add (get_elem?-append_right xs ys i)

-- The captured sample is that of the output at the position.
pub capture-output_of :
    (first next position : ℕ) (l : List MasterLedgerEntry) (last : Option Frame)
    → Chain first l next
    → first ≤ position
    → position < next
    → (s : Frame) × (capture position l last ≡ ok (some s))
      × (get_elem? (output_of l) (position - first) ≡ some s)
unfolding capture
capture-output_of first next position [] last c h k = absurd (omega (arith, c))
capture-output_of first next position (e ∷ l) last (s, n, o, c) h k =
    elim (Bool-cases (leb (master_end e) position)) [
      | inl over ↦
          let (x, found, there) =
            capture-output_of (first + block_frames) next position l last c (ground (arith, s, n))
              k in
          let shifted : position - first
              ≡ length e.output_samples + (position - (first + block_frames)) =
            ground (arith, s, n, o) in
          (
            x,
            ground (arith, found),
            rw (shifted, get_elem?-append_right e.output_samples (output_of l)) there,
          )
      | inr inside ↦
          let (x, found, there) =
            get_elem?-append_left e.output_samples (output_of l) (position - first)
              (ground (arith, s, n, o)) in
          (x, ground (arith, found, s), there)
    ]
