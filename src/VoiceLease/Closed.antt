-- ===== src/VoiceLease/Closed.antt =====
-- The last section of aclose in integrations/oopz/voice_lease.py, and what follows it.
use cywl_oopz.Prelude.{
  ◌∙◌, ℕ, ◌≡◌, ◌<◌, refl, arith, Bool, true, false, ◌&&◌, List, [], ◌∷◌, Option, none, some,
  nat_beq, is_some, any, Bool-cases, inl, inr, ltb, not, if_ind,
}
use cywl_oopz.VoiceLease.Manager.{
  VoiceLeaseRequest, VoiceLeaseSnapshot, OopzVoiceLease, begin_acquire, begin_close, end_close,
  manager_release, release, is_lease,
}
use cywl_oopz.VoiceLease.Tasks.{
  World, new_world, Event, acquires, join_raises, join_returns, orphan_leaves, orphan_is_forgotten,
  releases, closes, close_wakes, close_ends, handle, run, request_of,
}
use cywl_oopz.VoiceLease.Exclusive.{IsExclusive, pending_join}
use cywl_oopz.VoiceLease.Owners.{run-IsExclusive}
use cywl_oopz.VoiceLease.Silence.{IsClosing, Closing-run}

pub record Silent (closed active : Bool) (joining : List (ℕ × VoiceLeaseRequest)) : Type 0 where
  pub over : closed ≡ true
  pub unowned : active ≡ false
  pub unjoined : joining ≡ []

-- The manager is closed, and there is no lease and no join under way.
abbrev pub IsSilent : World → Type 0
IsSilent w = Silent w.manager.closed (is_some w.manager.active) w.joining

not_lease :
    (g : ℕ) (active : Option OopzVoiceLease) → is_some active ≡ false → is_lease g active ≡ false
not_lease g none h = refl
not_lease g (some lease) h = ground (arith, h)

releases-IsSilent :
    (returns : Bool) (g : ℕ) (w : World) → IsSilent w → IsSilent (handle (releases returns g) w)
unfolding handle release manager_release
releases-IsSilent returns g w i = elim (Bool-cases (any (nat_beq g) w.handed)) [
  | inr unknown ↦ rw unknown i
  | inl own ↦ elim (Bool-cases (any (nat_beq g) w.released)) [
    | inl done ↦ rw (own, done) i
    | inr not_yet ↦ rw (own, not_yet, not_lease g w.manager.active i.unowned) i
  ]
]

closes-IsSilent : (w : World) → IsSilent w → IsSilent (handle closes w)
unfolding handle begin_close
closes-IsSilent w i =
    elim (Bool-cases (
      w.manager.closed
      && not (is_some w.manager.pending)
      && not (is_some w.manager.active)
      && not w.manager.joined_without_lease)) [
        | inl over ↦ rw over i
        | inr still ↦ elim (Bool-cases (is_some w.manager.pending)) [
          | inl joins ↦
              rw (still, joins) (record { over = refl; unowned = i.unowned; unjoined = i.unjoined })
          | inr idle ↦
              rw (still, idle) (record { over = refl; unowned = i.unowned; unjoined = i.unjoined })
        ]
      ]

close_ends-IsSilent :
    (returns : Bool) (w : World) → IsSilent w → IsSilent (handle (close_ends returns) w)
unfolding handle end_close
close_ends-IsSilent returns w i = elim (Bool-cases (ltb 0 w.closing)) [
  | inr absent ↦ rw absent i
  | inl present ↦
      elim (Bool-cases (not (is_some w.manager.active) && not w.manager.joined_without_lease)) [
        | inl none_left ↦ rw (present, none_left) i
        | inr busy ↦ elim (Bool-cases returns) [
          | inr failed ↦ rw (present, busy, failed) i
          | inl left ↦
              rw (present, busy, left)
                (record { over = i.over; unowned = refl; unjoined = i.unjoined })
        ]
      ]
]

handle-IsSilent : (e : Event) (w : World) → IsSilent w → IsSilent (handle e w)
unfolding handle begin_acquire request_of
handle-IsSilent (acquires request) w i =
    rw i.over (record { over = refl; unowned = i.unowned; unjoined = i.unjoined })
handle-IsSilent (join_raises g) w i =
    rw i.unjoined (record { over = i.over; unowned = i.unowned; unjoined = refl })
handle-IsSilent (join_returns g) w i =
    rw i.unjoined (record { over = i.over; unowned = i.unowned; unjoined = refl })
handle-IsSilent (orphan_leaves returns) w i = if_ind IsSilent (ltb 0 w.leaving) (λ _. i) (λ _. i)
handle-IsSilent orphan_is_forgotten w i = if_ind IsSilent (ltb 0 w.left) (λ _. i) (λ _. i)
handle-IsSilent (releases returns g) w i = releases-IsSilent returns g w i
handle-IsSilent closes w i = closes-IsSilent w i
handle-IsSilent close_wakes w i =
    if_ind IsSilent (ltb 0 w.waiting && w.manager.pending_done) (λ _. i) (λ _. i)
handle-IsSilent (close_ends returns) w i = close_ends-IsSilent returns w i

Silent-run : (w : World) (events : List Event) → IsSilent w → IsSilent (run w events)
unfolding run
Silent-run w [] i = i
Silent-run w (e ∷ events) i = Silent-run (handle e w) events (handle-IsSilent e w i)

no_join :
    (pending : Option VoiceLeaseSnapshot) → is_some pending ≡ false → pending_join pending ≡ []
no_join none h = refl
no_join (some p) h = ground (arith, h)

no_lease :
    (active : Option OopzVoiceLease) (orphaned : Bool)
    → (not (is_some active) && not orphaned) ≡ true
    → is_some active ≡ false
no_lease none orphaned h = refl
no_lease (some lease) orphaned h = ground (arith, h)

end-IsSilent :
    (w : World)
    → IsExclusive w
    → IsClosing w
    → ltb 0 w.closing ≡ true
    → IsSilent (handle (close_ends true) w)
unfolding handle end_close
end-IsSilent w x i present =
    let (over, idle) = i.last (ground (arith, present)) in
    let unjoined = x.under_way ∙ no_join w.manager.pending idle in
    elim (Bool-cases (not (is_some w.manager.active) && not w.manager.joined_without_lease)) [
      | inl none_left ↦
          rw (present, none_left)
            (record {
              over = over;
              unowned = no_lease w.manager.active w.manager.joined_without_lease none_left;
              unjoined = unjoined;
            })
      | inr busy ↦ rw (present, busy) (record { over = over; unowned = refl; unjoined = unjoined })
    ]

-- Over any sections of any tasks, in any order: where a task has come to the last section of
-- aclose and the leave in it returns, the manager is closed from then on, and there is no lease
-- and no join under way.
pub close-IsSilent :
    (earlier later : List Event)
    → 0 < (run new_world earlier).closing
    → IsSilent (run (handle (close_ends true) (run new_world earlier)) later)
unfolding run
close-IsSilent earlier later present =
    let w = run new_world earlier in
    Silent-run (handle (close_ends true) w) later (
      end-IsSilent w (run-IsExclusive earlier)
        (Closing-run new_world earlier (run-IsExclusive []) (record {
          last = λ h. ground (arith, h);
          wait = λ h. ground (arith, h);
          leave = λ h. ground (arith, h);
          undone = λ h. ground (arith, h);
        }))
        (ground (arith, present)))
