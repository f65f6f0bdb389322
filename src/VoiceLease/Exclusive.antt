-- ===== src/VoiceLease/Exclusive.antt =====
-- The owners of the voice backend of integrations/oopz/voice_lease.py, over any order of the tasks'
-- sections.
use cywl_oopz.Prelude.{
  ap, ◌+◌, ℕ, ◌≡◌, ◌≤◌, arith, Bool, true, false, ◌&&◌, ◌||◌, List, [], ◌∷◌, Option, none, some,
  nat_beq, nat_beq_iff, is_some, any, Bool-cases, Option-cases, inl, inr,
}
use cywl_oopz.VoiceLease.Manager.{
  VoiceLeaseRequest, VoiceLeaseSnapshot, OopzVoiceLease, begin_acquire, fail_join, is_pending,
}
use cywl_oopz.VoiceLease.Tasks.{World, acquires, join_raises, handle, request_of, without}

abbrev pub pending_join : Option VoiceLeaseSnapshot → List (ℕ × VoiceLeaseRequest)
pending_join none = []
pending_join (some p) = (p.generation, p.request) ∷ []

abbrev pub has : ℕ → List ℕ → Bool
has g = any (nat_beq g)

abbrev pub IsNew : ℕ → List ℕ → Option VoiceLeaseSnapshot → Type 0
IsNew latest handed none = Unit
IsNew latest handed (some p) = (p.generation ≤ latest) × (has p.generation handed ≡ false)

abbrev pub IsHeld : List ℕ → List ℕ → Option OopzVoiceLease → Type 0
IsHeld handed released none = Unit
IsHeld handed released (some lease) =
    (has lease.generation handed ≡ true) × (has lease.generation released ≡ false)

-- The joins that are under way are the pending one, no lease is active beside it, and the active
-- lease is one that a task was given and that is not marked as released.
pub record Exclusive (active : Option OopzVoiceLease) (pending : Option VoiceLeaseSnapshot)
    (latest : ℕ) (released handed : List ℕ) (joining : List (ℕ × VoiceLeaseRequest)) : Type 0 where
  pub under_way : joining ≡ pending_join pending
  pub one : (is_some active && is_some pending) ≡ false
  pub before : (g : ℕ) → has g handed ≡ true → g ≤ latest
  pub fresh : IsNew latest handed pending
  pub held : IsHeld handed released active
  pub given : (g : ℕ) → has g released ≡ true → has g handed ≡ true

abbrev pub IsExclusive : World → Type 0
IsExclusive w =
    Exclusive w.manager.active w.manager.pending w.manager.generation w.released w.handed w.joining

later-unseen :
    (latest : ℕ) (handed : List ℕ)
    → ((g : ℕ) → has g handed ≡ true → g ≤ latest)
    → has (latest + 1) handed ≡ false
later-unseen latest handed before = elim (Bool-cases (has (latest + 1) handed)) [
  | inl seen ↦ ground (arith, before (latest + 1) seen)
  | inr unseen ↦ unseen
]

pub acquires-IsExclusive :
    (request : VoiceLeaseRequest) (w : World)
    → IsExclusive w
    → IsExclusive (handle (acquires request) w)
unfolding handle begin_acquire
acquires-IsExclusive request w i = elim (Bool-cases w.manager.closed) [
  | inl over ↦ rw over i
  | inr still ↦ elim (Bool-cases (is_some w.manager.active || is_some w.manager.pending)) [
    | inl busy ↦ rw (still, busy) i
    | inr free ↦
        rw (still, free)
          (record {
            under_way = ground (arith, i.under_way, free);
            one = ground (arith, free);
            before = λ g seen. ground (arith, i.before g seen);
            fresh = (omega arith, later-unseen w.manager.generation w.handed i.before);
            held = i.held;
            given = i.given;
          })
  ]
]

-- A join that is under way is the pending one, and the last.
pub only_join :
    (g : ℕ) (request : VoiceLeaseRequest) (pending : Option VoiceLeaseSnapshot)
    → request_of g (pending_join pending) ≡ some request
    → (is_pending g pending ≡ true) × (without g (pending_join pending) ≡ [])
unfolding request_of
only_join g request none e = ground (arith, e)
only_join g request (some p) e = ground (arith, e, nat_beq_iff p.generation g)

pub fresh-pending :
    (g latest : ℕ) (handed : List ℕ) (pending : Option VoiceLeaseSnapshot)
    → is_pending g pending ≡ true
    → IsNew latest handed pending
    → (g ≤ latest) × (has g handed ≡ false)
fresh-pending g latest handed none e h = ground (arith, e)
fresh-pending g latest handed (some p) e h = rw (← (nat_beq_iff p.generation g).0 e) h

pub join_raises-IsExclusive :
    (g : ℕ) (w : World) → IsExclusive w → IsExclusive (handle (join_raises g) w)
unfolding handle fail_join
join_raises-IsExclusive g w i = elim (Option-cases (request_of g w.joining)) [
  | inl absent ↦ rw absent i
  | inr (request, found) ↦
      let (pending, last) =
        only_join g request w.manager.pending
          (ground (arith, found, ap (request_of g) i.under_way)) in
      rw (found, pending)
        (record {
          under_way = ground (arith, ap (without g) i.under_way, last);
          one = ground arith;
          before = i.before;
          fresh = tt;
          held = i.held;
          given = i.given;
        })
]
