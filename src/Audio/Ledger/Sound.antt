-- ===== src/Audio/Ledger/Sound.antt =====
-- The invariant of features/audio/ledger.py, and that each part of its methods keeps it.
use cywl_oopz.Audio.Ledger.Reconciling.{has_id, drop_rendered, is_covered, accept_covered}
use cywl_oopz.Audio.Ledger.Tracked.{IsBounded, Tracks}
use cywl_oopz.Audio.Ledger.Chained.{Live, Chain}
use mathlib.Core.Path.{subst}
use cywl_oopz.Prelude.{
  refl, ℕ, ◌+◌, ◌≤◌, ◌<◌, ◌≡◌, Option, none, some, List, [], ◌∷◌, ◌++◌, arith, All, map, any, true,
  false, ◌&&◌, ok, err, if_ind, Result,
}
use cywl_oopz.Audio.Slices.{master_end_offset, LedgerError, SourceSlice, slice_frames, block_frames}
use cywl_oopz.Audio.Ledger.Values.{
  empty_ledger, MasterPlayoutLedger, MasterLedgerEntry, entry_sources, master_end, make_ledger,
  and_then,
}
use cywl_oopz.Audio.Ledger.Registering.{find_entry}

abbrev pub Filled : SourceSlice → Type 0
Filled s = 0 < slice_frames s

-- A slice as AudioBlock.as_slice cuts it: some frames, within the block.
abbrev pub Cut : SourceSlice → Type 0
Cut s = Filled s × (master_end_offset s ≤ block_frames)

abbrev pub IsCutEntry : MasterLedgerEntry → Type 0
IsCutEntry e = All Cut (entry_sources e)

-- The pending write is the first entry of its number, and no cursor has reached its end.
abbrev pub PendingIn : Option ℕ → List MasterLedgerEntry → ℕ → Type 0
PendingIn none l accepted = Unit
PendingIn (some id) l accepted =
    (e : MasterLedgerEntry) × (find_entry id l ≡ some e) × (accepted < master_end e)

pub record IsSound (l : MasterPlayoutLedger) : Type 0 where
  pub first : ℕ
  pub begun : first ≤ l.master_rendered_frames
  pub chained : Chain first l.entries l.next_master_frame
  pub live : All (Live l.master_rendered_frames) l.entries
  pub ordered : l.master_rendered_frames ≤ l.master_accepted_frames
  pub registered : l.master_accepted_frames ≤ l.next_master_frame
  pub windowed : l.next_master_frame ≤ l.master_rendered_frames + l.max_buffer_frames
  pub fresh : All (λ (e : MasterLedgerEntry). e.entry_id < l.next_entry_id) l.entries
  pub waiting : PendingIn l.pending_entry_id l.entries l.master_accepted_frames
  pub tracked : All (Tracks l.sources) l.entries
  pub bounded : IsBounded l.sources
  pub whole : All IsCutEntry l.entries

pub make_ledger-IsSound :
    (max_frames : ℕ) (l : MasterPlayoutLedger) → make_ledger max_frames ≡ ok l → IsSound l
unfolding make_ledger
make_ledger-IsSound max_frames l h =
    let start : IsSound (empty_ledger max_frames) = record {
      first = 0;
      begun = omega arith;
      chained = refl;
      live = tt;
      ordered = omega arith;
      registered = omega arith;
      windowed = omega arith;
      fresh = tt;
      waiting = tt;
      tracked = tt;
      bounded = tt;
      whole = tt;
    } in
    subst IsSound (ground arith) start

pub find-append_new :
    (n : ℕ) (l : List MasterLedgerEntry) (e : MasterLedgerEntry)
    → All (λ (x : MasterLedgerEntry). x.entry_id < n) l
    → e.entry_id ≡ n
    → find_entry n (l ++ e ∷ []) ≡ some e
unfolding find_entry
find-append_new n [] e h s = ground arith
find-append_new n (x ∷ l) e h s = ground (arith, h.0, find-append_new n l e h.1 s)

pub find-accept_covered :
    (frames id : ℕ) (l : List MasterLedgerEntry) (e : MasterLedgerEntry)
    → find_entry id l ≡ some e
    → find_entry id (map (accept_covered frames) l) ≡ some (accept_covered frames e)
unfolding find_entry
find-accept_covered frames id [] e h = absurd (cc)
find-accept_covered frames id (x ∷ l) e h = ground (arith, find-accept_covered frames id l e)

find-drop_rendered :
    (frames id : ℕ) (l : List MasterLedgerEntry) (e : MasterLedgerEntry)
    → find_entry id l ≡ some e
    → frames < master_end e
    → find_entry id (drop_rendered frames l) ≡ some e
unfolding find_entry drop_rendered
find-drop_rendered frames id [] e h k = absurd (cc)
find-drop_rendered frames id (x ∷ l) e h k = ground (arith, find-drop_rendered frames id l e)

pub any-uncovered :
    (frames id : ℕ) (l : List MasterLedgerEntry) (e : MasterLedgerEntry)
    → any (λ x. is_covered frames x && has_id (some id) x && true) l ≡ false
    → find_entry id l ≡ some e
    → frames < master_end e
unfolding find_entry
any-uncovered frames id [] e h k = absurd (cc)
any-uncovered frames id (x ∷ l) e h k = ground (arith, any-uncovered frames id l e)

pub any-disallowed :
    (frames : ℕ) (p : Option ℕ) (l : List MasterLedgerEntry)
    → any (λ x. is_covered frames x && has_id p x && false) l ≡ false
any-disallowed frames p [] = refl
any-disallowed frames p (x ∷ l) = ground (arith, any-disallowed frames p l)

-- A cursor at which the pending write is still out.
pub PendingIn-le :
    (p : Option ℕ) (l : List MasterLedgerEntry) (a b : ℕ)
    → a ≤ b
    → PendingIn p l b
    → PendingIn p l a
PendingIn-le none l a b h w = tt
PendingIn-le (some id) l a b h (e, found, out) = (e, found, omega arith)

pub PendingIn-accept_covered :
    (frames : ℕ) (p : Option ℕ) (l : List MasterLedgerEntry) (a : ℕ)
    → PendingIn p l a
    → PendingIn p (map (accept_covered frames) l) a
PendingIn-accept_covered frames none l a w = tt
PendingIn-accept_covered frames (some id) l a (e, found, out) = (
  accept_covered frames e,
  find-accept_covered frames id l e found,
  if_ind (Live a) (is_covered frames e) (λ _. out) (λ _. out),
)

pub PendingIn-drop_rendered :
    (frames : ℕ) (p : Option ℕ) (l : List MasterLedgerEntry) (a : ℕ)
    → frames ≤ a
    → PendingIn p l a
    → PendingIn p (drop_rendered frames l) a
PendingIn-drop_rendered frames none l a h w = tt
PendingIn-drop_rendered frames (some id) l a h (e, found, out) =
    (e, find-drop_rendered frames id l e found (omega arith), out)

-- Code that raises leaves its state, and other code goes on from it.
pub and_then_ind {ℓ κ μ} :
    {S : Type ℓ} {A : Type κ} (P : S → Type μ) (s : S) (c : Result LedgerError (Unit {0}))
    (k : S → S × Result LedgerError A)
    → P s
    → (c ≡ ok tt → P (k s).0)
    → P (and_then (s, c) k).0
and_then_ind P s (ok u) k h go = go refl
and_then_ind P s (err e) k h go = h
