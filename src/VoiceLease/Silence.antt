-- ===== src/VoiceLease/Silence.antt =====
-- The manager of integrations/oopz/voice_lease.py after aclose.
use cywl_oopz.Prelude.{
  ℕ, ◌≡◌, ◌<◌, refl, arith, Bool, true, false, ◌&&◌, ◌||◌, List, [], ◌∷◌, if_ind, nat_beq, ◌-◌,
  is_some, any, Bool-cases, Option-cases, inl, inr, ltb, not, ap,
}
use cywl_oopz.VoiceLease.Manager.{
  is_lease, VoiceLeaseRequest, begin_acquire, fail_join, end_join, begin_close, end_close,
  manager_release, release, is_pending,
}
use cywl_oopz.VoiceLease.Tasks.{
  World, Event, acquires, join_raises, join_returns, orphan_leaves, orphan_is_forgotten, releases,
  closes, close_wakes, close_ends, handle, run, request_of,
}
use cywl_oopz.VoiceLease.Exclusive.{IsExclusive, only_join}
use cywl_oopz.VoiceLease.Owners.{handle-IsExclusive}

-- A task that leaves an orphaned join, or is in aclose, has seen the manager closed, and the last
-- section of aclose finds no join pending.
pub record Closing (closed pending done : Bool) (waiting closing leaving : ℕ) : Type 0 where
  pub last : 0 < closing → (closed ≡ true) × (pending ≡ false)
  pub wait : 0 < waiting → closed ≡ true
  pub leave : 0 < leaving → (closed ≡ true) × (pending ≡ false)
  pub undone : pending ≡ true → done ≡ false

abbrev pub IsClosing : World → Type 0
IsClosing w =
    Closing w.manager.closed (is_some w.manager.pending) w.manager.pending_done w.waiting w.closing
      w.leaving

acquires-IsClosing :
    (request : VoiceLeaseRequest) (w : World)
    → IsClosing w
    → IsClosing (handle (acquires request) w)
unfolding handle begin_acquire
acquires-IsClosing request w i = elim (Bool-cases w.manager.closed) [
  | inl over ↦ rw over (record {
    last = λ h. (refl, (i.last h).1);
    wait = λ h. refl;
    leave = λ h. (refl, (i.leave h).1);
    undone = i.undone;
  })
  | inr still ↦ elim (Bool-cases (is_some w.manager.active || is_some w.manager.pending)) [
    | inl busy ↦
        rw (still, busy)
          (record {
            last = λ h. ground (arith, i.last h, still);
            wait = λ h. ground (arith, i.wait h, still);
            leave = λ h. ground (arith, i.leave h, still);
            undone = i.undone;
          })
    | inr free ↦
        rw (still, free)
          (record {
            last = λ h. ground (arith, i.last h, still);
            wait = λ h. ground (arith, i.wait h, still);
            leave = λ h. ground (arith, i.leave h, still);
            undone = λ h. refl;
          })
  ]
]

join_raises-IsClosing : (g : ℕ) (w : World) → IsClosing w → IsClosing (handle (join_raises g) w)
unfolding handle fail_join
join_raises-IsClosing g w i = elim (Option-cases (request_of g w.joining)) [
  | inl absent ↦ rw absent i
  | inr (request, found) ↦ elim (Bool-cases (is_pending g w.manager.pending)) [
    | inr other ↦ rw (found, other) i
    | inl own ↦
        rw (found, own)
          (record {
            last = λ h. ((i.last h).0, refl);
            wait = i.wait;
            leave = λ h. ((i.leave h).0, refl);
            undone = λ h. ground (arith, h);
          })
  ]
]

join_returns-IsClosing :
    (g : ℕ) (w : World) → IsExclusive w → IsClosing w → IsClosing (handle (join_returns g) w)
unfolding handle end_join
join_returns-IsClosing g w x i = elim (Option-cases (request_of g w.joining)) [
  | inl absent ↦ rw absent i
  | inr (request, found) ↦
      let (pending, last) =
        only_join g request w.manager.pending
          (ground (arith, found, ap (request_of g) x.under_way)) in
      elim (Bool-cases w.manager.closed) [
        | inl over ↦
            rw (found, over)
              (record {
                last = λ h. (refl, refl);
                wait = λ h. refl;
                leave = λ h. (refl, refl);
                undone = λ h. ground (arith, h);
              })
        | inr still ↦
            rw (found, still, pending)
              (record {
                last = λ h. ground (arith, i.last h, still);
                wait = λ h. ground (arith, i.wait h, still);
                leave = λ h. ground (arith, i.leave h, still);
                undone = λ h. ground (arith, h);
              })
      ]
]

orphan_leaves-IsClosing :
    (returns : Bool) (w : World) → IsClosing w → IsClosing (handle (orphan_leaves returns) w)
unfolding handle
orphan_leaves-IsClosing returns w i = elim (Bool-cases (ltb 0 w.leaving)) [
  | inr absent ↦ rw absent i
  | inl present ↦
      let idle = i.leave (ground (arith, present)) in
      rw present (record {
        last = i.last;
        wait = i.wait;
        leave = λ h. idle;
        undone = λ h. ground (arith, h, idle);
      })
]

closes-IsClosing : (w : World) → IsClosing w → IsClosing (handle closes w)
unfolding handle begin_close
closes-IsClosing w i =
    elim (Bool-cases (
      w.manager.closed
      && not (is_some w.manager.pending)
      && not (is_some w.manager.active)
      && not w.manager.joined_without_lease)) [
        | inl over ↦ rw over i
        | inr still ↦ elim (Bool-cases (is_some w.manager.pending)) [
          | inl joins ↦
              rw (still, joins)
                (record {
                  last = λ h. (refl, ground (arith, i.last h));
                  wait = λ h. refl;
                  leave = λ h. (refl, ground (arith, i.leave h));
                  undone = λ h. i.undone joins;
                })
          | inr idle ↦
              rw (still, idle)
                (record {
                  last = λ h. (refl, idle);
                  wait = λ h. refl;
                  leave = λ h. (refl, idle);
                  undone = λ h. ground (arith, h, idle);
                })
        ]
      ]

close_wakes-IsClosing : (w : World) → IsClosing w → IsClosing (handle close_wakes w)
unfolding handle
close_wakes-IsClosing w i = elim (Bool-cases (ltb 0 w.waiting && w.manager.pending_done)) [
  | inr absent ↦ rw absent i
  | inl present ↦
      let over = i.wait (ground (arith, present)) in
      rw present (record {
        last = λ h. (over, ground (arith, present, i.undone));
        wait = λ h. over;
        leave = i.leave;
        undone = i.undone;
      })
]

orphan_is_forgotten-IsClosing : (w : World) → IsClosing w → IsClosing (handle orphan_is_forgotten w)
unfolding handle
orphan_is_forgotten-IsClosing w i = if_ind IsClosing (ltb 0 w.left) (λ _. i) (λ _. i)

releases-IsClosing :
    (returns : Bool) (g : ℕ) (w : World) → IsClosing w → IsClosing (handle (releases returns g) w)
unfolding handle release manager_release
releases-IsClosing returns g w i = elim (Bool-cases (any (nat_beq g) w.handed)) [
  | inr unknown ↦ rw unknown i
  | inl own ↦ elim (Bool-cases (any (nat_beq g) w.released)) [
    | inl done ↦ rw (own, done) i
    | inr not_yet ↦ elim (Bool-cases (is_lease g w.manager.active)) [
      | inr other ↦ rw (own, not_yet, other) i
      | inl mine ↦ elim (Bool-cases returns) [
        | inl left ↦ rw (own, not_yet, mine, left) i
        | inr failed ↦ rw (own, not_yet, mine, failed) i
      ]
    ]
  ]
]

close_ends-IsClosing :
    (returns : Bool) (w : World) → IsClosing w → IsClosing (handle (close_ends returns) w)
unfolding handle end_close
close_ends-IsClosing returns w i = elim (Bool-cases (ltb 0 w.closing)) [
  | inr absent ↦ rw absent i
  | inl present ↦
      let idle = i.last (ground (arith, present)) in
      let fewer : Closing w.manager.closed (is_some w.manager.pending) w.manager.pending_done
          w.waiting (w.closing - 1) w.leaving =
        record { last = λ h. idle; wait = i.wait; leave = i.leave; undone = i.undone } in
      elim (Bool-cases (not (is_some w.manager.active) && not w.manager.joined_without_lease)) [
        | inl none_left ↦ rw (present, none_left) fewer
        | inr busy ↦ elim (Bool-cases returns) [
          | inr failed ↦ rw (present, busy, failed) fewer
          | inl left ↦ rw (present, busy, left) fewer
        ]
      ]
]

handle-IsClosing : (e : Event) (w : World) → IsExclusive w → IsClosing w → IsClosing (handle e w)
handle-IsClosing (acquires request) w x i = acquires-IsClosing request w i
handle-IsClosing (join_raises g) w x i = join_raises-IsClosing g w i
handle-IsClosing (join_returns g) w x i = join_returns-IsClosing g w x i
handle-IsClosing (orphan_leaves returns) w x i = orphan_leaves-IsClosing returns w i
handle-IsClosing orphan_is_forgotten w x i = orphan_is_forgotten-IsClosing w i
handle-IsClosing (releases returns g) w x i = releases-IsClosing returns g w i
handle-IsClosing closes w x i = closes-IsClosing w i
handle-IsClosing close_wakes w x i = close_wakes-IsClosing w i
handle-IsClosing (close_ends returns) w x i = close_ends-IsClosing returns w i

pub Closing-run :
    (w : World) (events : List Event) → IsExclusive w → IsClosing w → IsClosing (run w events)
unfolding run
Closing-run w [] x i = i
Closing-run w (e ∷ events) x i =
    Closing-run (handle e w) events (handle-IsExclusive e w x) (handle-IsClosing e w x i)
