-- ===== src/VoiceLease/Manager.antt =====
-- integrations/oopz/voice_lease.py: the values, and the sections of OopzVoiceLeaseManager between
-- its awaits, under its lock. A lease is known by its generation, which no other lease has. Whether
-- voice.leave returns is an argument. Log lines are left out.
use cywl_oopz.Prelude.{
  ℕ, ◌+◌, Bool, true, false, not, ◌&&◌, ◌||◌, List, ◌∷◌, Option, none, some, if◌then◌else◌, nat_beq,
  is_some, Result, ok, err, ◌>>◌, raise_if, any,
}
use cywl_oopz.Prelude.Text.{Text, strip}
use cywl_oopz.Commands.Parsing.{is_empty}

pub data VoiceLeasePurpose : Type 0 where
  for_music for_conversation : VoiceLeasePurpose

pub data VoiceLeaseState : Type 0 where
  is_acquiring is_active : VoiceLeaseState

pub record VoiceLeaseRequest : Type 0 where
  pub purpose : VoiceLeasePurpose
  pub area_id : Text
  pub channel_id : Text
  pub owner_key : Text

pub data LeaseError : Type 0 where
  bad_request manager_closed leave_failed : LeaseError

-- VoiceLeaseRequest.__post_init__
abbrev make_request : VoiceLeaseRequest → Result LeaseError VoiceLeaseRequest
make_request r = do
  raise_if
      (is_empty (strip r.area_id) || is_empty (strip r.channel_id) || is_empty (strip r.owner_key))
      bad_request
  ok r

pub record VoiceLeaseSnapshot : Type 0 where
  pub request : VoiceLeaseRequest
  pub generation : ℕ
  pub state : VoiceLeaseState

-- A lease; its flag _released is kept beside the manager.
pub record OopzVoiceLease : Type 0 where
  pub request : VoiceLeaseRequest
  pub generation : ℕ

pub record OopzVoiceLeaseManager : Type 0 where
  pub active : Option OopzVoiceLease
  pub pending : Option VoiceLeaseSnapshot
  pub pending_done : Bool
  pub joined_without_lease : Bool
  pub generation : ℕ
  pub closed : Bool

abbrev pub new_manager : OopzVoiceLeaseManager
new_manager = record {
  active = none;
  pending = none;
  pending_done = true;
  joined_without_lease = false;
  generation = 0;
  closed = false;
}

-- try_acquire up to voice.join: the generation that joins, or none where another owner is active.
unfoldable pub begin_acquire :
    VoiceLeaseRequest → OopzVoiceLeaseManager → Result LeaseError (Option ℕ) × OopzVoiceLeaseManager
begin_acquire request m =
    let generation = m.generation + 1 in
    if m.closed
    then (err manager_closed, m)
    else if is_some m.active || is_some m.pending
    then (ok none, m)
    else (
      ok (some generation),
      record m {
        generation = generation;
        pending =
            some (record { request = request; generation = generation; state = is_acquiring });
        pending_done = false;
      },
    )

abbrev pub is_pending : ℕ → Option VoiceLeaseSnapshot → Bool
is_pending generation none = false
is_pending generation (some p) = nat_beq p.generation generation

-- try_acquire where voice.join raises.
unfoldable pub fail_join : ℕ → OopzVoiceLeaseManager → OopzVoiceLeaseManager
fail_join generation m =
    if is_pending generation m.pending then record m { pending = none; pending_done = true } else m

-- try_acquire after voice.join: whether it has to leave again.
unfoldable pub end_join :
    ℕ → VoiceLeaseRequest → OopzVoiceLeaseManager → Bool × OopzVoiceLeaseManager
end_join generation request m =
    if m.closed
    then (true, record m { pending = none; joined_without_lease = true })
    else if not (is_pending generation m.pending)
    then (true, record m { joined_without_lease = true })
    else (
      false,
      record m {
        active = some (record { request = request; generation = generation });
        pending = none;
        pending_done = true;
      },
    )

-- The finally after the leave of an orphaned join, and the section after a leave that returned.
abbrev pub end_orphan : OopzVoiceLeaseManager → OopzVoiceLeaseManager
end_orphan m = record m { pending_done = true }

abbrev pub forget_orphan : OopzVoiceLeaseManager → OopzVoiceLeaseManager
forget_orphan m = record m { joined_without_lease = false }

abbrev current_of : Option OopzVoiceLease → Option VoiceLeaseSnapshot → Option VoiceLeaseSnapshot
current_of none pending = pending
current_of (some lease) pending =
    some (record { request = lease.request; generation = lease.generation; state = is_active })

abbrev current : OopzVoiceLeaseManager → Option VoiceLeaseSnapshot
current m = current_of m.active m.pending

-- The first section of aclose: none where it returns, else whether a join is pending.
unfoldable pub begin_close : OopzVoiceLeaseManager → Option Bool × OopzVoiceLeaseManager
begin_close m =
    if m.closed && not (is_some m.pending) && not (is_some m.active) && not m.joined_without_lease
    then (none, m)
    else (some (is_some m.pending), record m { closed = true })

abbrev pub marked : Option OopzVoiceLease → List ℕ → List ℕ
marked none released = released
marked (some lease) released = lease.generation ∷ released

-- The last section of aclose, with the leases that are marked as released.
unfoldable pub end_close : Bool → OopzVoiceLeaseManager → List ℕ → List ℕ × OopzVoiceLeaseManager
end_close leaves m released =
    if not (is_some m.active) && not m.joined_without_lease
    then (released, m)
    else if leaves
    then (marked m.active released, record m { active = none; joined_without_lease = false })
    else (released, m)

abbrev pub is_lease : ℕ → Option OopzVoiceLease → Bool
is_lease generation none = false
is_lease generation (some lease) = nat_beq lease.generation generation

-- _release
unfoldable pub manager_release :
    Bool → ℕ → OopzVoiceLeaseManager → Result LeaseError Bool × OopzVoiceLeaseManager
manager_release leaves generation m =
    if not (is_lease generation m.active)
    then (ok false, m)
    else if leaves
    then (ok true, record m { active = none })
    else (err leave_failed, m)

abbrev release_answer :
    ℕ
    → List ℕ
    → Result LeaseError Bool × OopzVoiceLeaseManager
    → Result LeaseError Bool × (List ℕ × OopzVoiceLeaseManager)
release_answer generation released (err e, m) = (err e, (released, m))
release_answer generation released (ok b, m) = (ok b, (generation ∷ released, m))

-- OopzVoiceLease.release
unfoldable pub release :
    Bool
    → ℕ
    → List ℕ
    → OopzVoiceLeaseManager
    → Result LeaseError Bool × (List ℕ × OopzVoiceLeaseManager)
unfolding manager_release
release leaves generation released m =
    if any (nat_beq generation) released
    then (ok false, (released, m))
    else release_answer generation released (manager_release leaves generation m)
