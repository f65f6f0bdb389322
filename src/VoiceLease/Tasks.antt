-- ===== src/VoiceLease/Tasks.antt =====
-- integrations/oopz/voice_lease.py: the tasks that use one manager. Each event is one section of a
-- task, from an await to the next; an event of a task that is not there changes nothing. What
-- voice.join and voice.leave answer is part of the event.
use cywl_oopz.Prelude.{
  ℕ, ◌+◌, ◌-◌, Bool, true, false, not, ◌&&◌, List, [], ◌∷◌, Option, none, some, if◌then◌else◌,
  nat_beq, any, keep, Result, ok, err, ltb,
}
use cywl_oopz.VoiceLease.Manager.{
  VoiceLeaseRequest, LeaseError, OopzVoiceLeaseManager, new_manager, begin_acquire, fail_join,
  end_join, end_orphan, forget_orphan, begin_close, end_close, release,
}

-- The manager, the leases that are marked as released and those that a task was given, the joins
-- that are under way, how many tasks leave after an orphaned join, have left after one, wait in
-- aclose for a join, and come to the last section of aclose.
pub record World : Type 0 where
  pub manager : OopzVoiceLeaseManager
  pub released : List ℕ
  pub handed : List ℕ
  pub joining : List (ℕ × VoiceLeaseRequest)
  pub leaving : ℕ
  pub left : ℕ
  pub waiting : ℕ
  pub closing : ℕ

abbrev pub new_world : World
new_world = record {
  manager = new_manager;
  released = [];
  handed = [];
  joining = [];
  leaving = 0;
  left = 0;
  waiting = 0;
  closing = 0;
}

pub data Event : Type 0 where
  acquires : VoiceLeaseRequest → Event
  join_raises join_returns : ℕ → Event
  orphan_leaves : Bool → Event
  orphan_is_forgotten : Event
  releases : Bool → ℕ → Event
  closes close_wakes : Event
  close_ends : Bool → Event

abbrev pub begun :
    VoiceLeaseRequest → World → Result LeaseError (Option ℕ) × OopzVoiceLeaseManager → World
begun request w (err e, m) = record w { manager = m }
begun request w (ok none, m) = record w { manager = m }
begun request w (ok (some g), m) = record w { manager = m; joining = (g, request) ∷ w.joining }

abbrev pub joins : ℕ → ℕ × VoiceLeaseRequest → Bool
joins g j = nat_beq j.0 g

unfoldable pub request_of : ℕ → List (ℕ × VoiceLeaseRequest) → Option VoiceLeaseRequest
request_of g [] = none
request_of g (j ∷ rest) = if joins g j then some j.1 else request_of g rest

abbrev pub without : ℕ → List (ℕ × VoiceLeaseRequest) → List (ℕ × VoiceLeaseRequest)
without g = keep (λ j. not (joins g j))

abbrev pub joined : ℕ → World → Bool × OopzVoiceLeaseManager → World
joined g w (true, m) = record w {
  manager = m;
  joining = without g w.joining;
  leaving = w.leaving + 1;
}
joined g w (false, m) = record w {
  manager = m;
  joining = without g w.joining;
  handed = g ∷ w.handed;
}

abbrev pub returned : ℕ → World → Option VoiceLeaseRequest → World
returned g w none = w
returned g w (some request) = joined g w (end_join g request w.manager)

abbrev pub raised : ℕ → World → Option VoiceLeaseRequest → World
raised g w none = w
raised g w (some request) = record w {
  manager = fail_join g w.manager;
  joining = without g w.joining;
}

abbrev pub close_begun : World → Option Bool × OopzVoiceLeaseManager → World
close_begun w (none, m) = record w { manager = m }
close_begun w (some true, m) = record w { manager = m; waiting = w.waiting + 1 }
close_begun w (some false, m) = record w { manager = m; closing = w.closing + 1 }

abbrev pub written : World → List ℕ × OopzVoiceLeaseManager → World
written w (released, m) = record w { manager = m; released = released }

unfoldable pub handle : Event → World → World
unfolding begin_acquire fail_join end_join begin_close end_close release request_of
handle (acquires request) w = begun request w (begin_acquire request w.manager)
handle (join_raises g) w = raised g w (request_of g w.joining)
handle (join_returns g) w = returned g w (request_of g w.joining)
handle (orphan_leaves returns) w =
    if ltb 0 w.leaving
    then record w {
      manager = end_orphan w.manager;
      leaving = w.leaving - 1;
      left = if returns then w.left + 1 else w.left;
    }
    else w
handle orphan_is_forgotten w =
    if ltb 0 w.left then record w { manager = forget_orphan w.manager; left = w.left - 1 } else w
handle (releases returns g) w =
    if any (nat_beq g) w.handed then written w (release returns g w.released w.manager).1 else w
handle closes w = close_begun w (begin_close w.manager)
handle close_wakes w =
    if ltb 0 w.waiting && w.manager.pending_done
    then record w { waiting = w.waiting - 1; closing = w.closing + 1 }
    else w
handle (close_ends returns) w =
    if ltb 0 w.closing
    then written (record w { closing = w.closing - 1 }) (end_close returns w.manager w.released)
    else w

unfoldable pub run : World → List Event → World
unfolding handle
run w [] = w
run w (e ∷ events) = run (handle e w) events
