-- ===== src/VoiceLease/Owners.antt =====
-- integrations/oopz/voice_lease.py: the sections that give a lease, take it back or close the
-- manager, and runs of any events.
use cywl_oopz.Prelude.{
  ℕ, ◌≡◌, refl, arith, Bool, true, false, ◌&&◌, List, [], ◌∷◌, Option, none, some, nat_beq,
  nat_beq_iff, is_some, Bool-cases, Option-cases, inl, inr, if_ind, ltb, not, ap,
}
use cywl_oopz.VoiceLease.Manager.{
  marked, VoiceLeaseRequest, VoiceLeaseSnapshot, OopzVoiceLease, end_join, begin_close, end_close,
  manager_release, release, is_lease,
}
use cywl_oopz.VoiceLease.Tasks.{
  World, new_world, Event, acquires, join_raises, join_returns, orphan_leaves, orphan_is_forgotten,
  releases, closes, close_wakes, close_ends, handle, run, request_of, without,
}
use cywl_oopz.VoiceLease.Exclusive.{
  Exclusive, IsExclusive, IsHeld, has, only_join, fresh-pending, acquires-IsExclusive,
  join_raises-IsExclusive,
}

-- A generation that is new to the tasks is marked nowhere.
unmarked :
    (g : ℕ) (released handed : List ℕ)
    → ((q : ℕ) → has q released ≡ true → has q handed ≡ true)
    → has g handed ≡ false
    → has g released ≡ false
unmarked g released handed given unseen = elim (Bool-cases (has g released)) [
  | inl seen ↦ ground (arith, given g seen, unseen)
  | inr clear ↦ clear
]

join_returns-IsExclusive :
    (g : ℕ) (w : World) → IsExclusive w → IsExclusive (handle (join_returns g) w)
unfolding handle end_join
join_returns-IsExclusive g w i = elim (Option-cases (request_of g w.joining)) [
  | inl absent ↦ rw absent i
  | inr (request, found) ↦
      let (pending, last) =
        only_join g request w.manager.pending
          (ground (arith, found, ap (request_of g) i.under_way)) in
      let (early, unseen) =
        fresh-pending g w.manager.generation w.handed w.manager.pending pending i.fresh in
      elim (Bool-cases w.manager.closed) [
        | inl over ↦
            rw (found, over)
              (record {
                under_way = ground (arith, ap (without g) i.under_way, last);
                one = ground arith;
                before = i.before;
                fresh = tt;
                held = i.held;
                given = i.given;
              })
        | inr still ↦
            rw (found, still, pending)
              (record {
                under_way = ground (arith, ap (without g) i.under_way, last);
                one = refl;
                before = λ q seen. ground (arith, seen, nat_beq_iff q g, i.before q, early);
                fresh = tt;
                held = (
                  ground (arith, nat_beq_iff g g),
                  unmarked g w.released w.handed i.given unseen,
                );
                given = λ q seen. ground (arith, i.given q seen);
              })
      ]
]

-- Marking a lease that is not the active one keeps the active one unmarked.
IsHeld-marked :
    (g : ℕ) (handed released : List ℕ) (active : Option OopzVoiceLease)
    → is_lease g active ≡ false
    → IsHeld handed released active
    → IsHeld handed (g ∷ released) active
IsHeld-marked g handed released none other h = tt
IsHeld-marked g handed released (some lease) other h = (h.0, ground (arith, h.1, other))

given-marked :
    (g : ℕ) (released handed : List ℕ)
    → has g handed ≡ true
    → ((q : ℕ) → has q released ≡ true → has q handed ≡ true)
    → (q : ℕ) → has q (g ∷ released) ≡ true
    → has q handed ≡ true
given-marked g released handed own given q seen = elim (Bool-cases (nat_beq q g)) [
  | inl same ↦ rw ((nat_beq_iff q g).0 same) own
  | inr other ↦ ground (arith, seen, other, given q)
]

releases-IsExclusive :
    (returns : Bool) (g : ℕ) (w : World)
    → IsExclusive w
    → IsExclusive (handle (releases returns g) w)
unfolding handle release manager_release
releases-IsExclusive returns g w i = elim (Bool-cases (has g w.handed)) [
  | inr unknown ↦ rw unknown i
  | inl own ↦ elim (Bool-cases (has g w.released)) [
    | inl done ↦ rw (own, done) i
    | inr open_yet ↦ elim (Bool-cases (is_lease g w.manager.active)) [
      | inr other ↦
          rw (own, open_yet, other)
            (record {
              under_way = i.under_way;
              one = i.one;
              before = i.before;
              fresh = i.fresh;
              held = IsHeld-marked g w.handed w.released w.manager.active other i.held;
              given = given-marked g w.released w.handed own i.given;
            })
      | inl mine ↦ elim (Bool-cases returns) [
        | inl left ↦
            rw (own, open_yet, mine, left)
              (record {
                under_way = i.under_way;
                one = refl;
                before = i.before;
                fresh = i.fresh;
                held = tt;
                given = given-marked g w.released w.handed own i.given;
              })
        | inr failed ↦ rw (own, open_yet, mine, failed) i
      ]
    ]
  ]
]

closes-IsExclusive : (w : World) → IsExclusive w → IsExclusive (handle closes w)
unfolding handle begin_close
closes-IsExclusive w i =
    elim (Bool-cases (
      w.manager.closed
      && not (is_some w.manager.pending)
      && not (is_some w.manager.active)
      && not w.manager.joined_without_lease)) [
        | inl over ↦ rw over i
        | inr still ↦ elim (Bool-cases (is_some w.manager.pending)) [
          | inl joins ↦ rw (still, joins) i
          | inr idle ↦ rw (still, idle) i
        ]
      ]

close_ends-marked :
    (active : Option OopzVoiceLease) (pending : Option VoiceLeaseSnapshot) (latest : ℕ)
    (released handed : List ℕ) (joining : List (ℕ × VoiceLeaseRequest))
    → Exclusive active pending latest released handed joining
    → Exclusive none pending latest (marked active released) handed joining
close_ends-marked none pending latest released handed joining i = i
close_ends-marked (some lease) pending latest released handed joining i = record {
  under_way = i.under_way;
  one = refl;
  before = i.before;
  fresh = i.fresh;
  held = tt;
  given = given-marked lease.generation released handed i.held.0 i.given;
}

close_ends-IsExclusive :
    (returns : Bool) (w : World) → IsExclusive w → IsExclusive (handle (close_ends returns) w)
unfolding handle end_close
close_ends-IsExclusive returns w i = elim (Bool-cases (ltb 0 w.closing)) [
  | inr absent ↦ rw absent i
  | inl present ↦
      elim (Bool-cases (not (is_some w.manager.active) && not w.manager.joined_without_lease)) [
        | inl idle ↦ rw (present, idle) i
        | inr busy ↦ elim (Bool-cases returns) [
          | inr failed ↦ rw (present, busy, failed) i
          | inl left ↦
              rw (present, busy, left)
                (close_ends-marked w.manager.active w.manager.pending w.manager.generation
                  w.released w.handed w.joining i)
        ]
      ]
]

pub handle-IsExclusive : (e : Event) (w : World) → IsExclusive w → IsExclusive (handle e w)
unfolding handle
handle-IsExclusive (acquires request) w i = acquires-IsExclusive request w i
handle-IsExclusive (join_raises g) w i = join_raises-IsExclusive g w i
handle-IsExclusive (join_returns g) w i = join_returns-IsExclusive g w i
handle-IsExclusive (orphan_leaves returns) w i =
    if_ind IsExclusive (ltb 0 w.leaving) (λ _. i) (λ _. i)
handle-IsExclusive orphan_is_forgotten w i = if_ind IsExclusive (ltb 0 w.left) (λ _. i) (λ _. i)
handle-IsExclusive (releases returns g) w i = releases-IsExclusive returns g w i
handle-IsExclusive closes w i = closes-IsExclusive w i
handle-IsExclusive close_wakes w i =
    if_ind IsExclusive (ltb 0 w.waiting && w.manager.pending_done) (λ _. i) (λ _. i)
handle-IsExclusive (close_ends returns) w i = close_ends-IsExclusive returns w i

pub Exclusive-run : (w : World) (events : List Event) → IsExclusive w → IsExclusive (run w events)
unfolding run
Exclusive-run w [] i = i
Exclusive-run w (e ∷ events) i = Exclusive-run (handle e w) events (handle-IsExclusive e w i)

-- Over any sections of any tasks, in any order and whatever the backend answers, the joins under
-- way are the pending one, no lease is active beside it, the active lease is one that a task was
-- given and that is not marked as released, and the pending generation is new to every task.
pub run-IsExclusive : (events : List Event) → IsExclusive (run new_world events)
run-IsExclusive events = Exclusive-run new_world events (record {
  under_way = refl;
  one = refl;
  before = λ g seen. ground (arith, seen);
  fresh = tt;
  held = tt;
  given = λ g seen. seen;
})
