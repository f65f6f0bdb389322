-- ===== src/Examples/VoiceLease.antt =====
-- The theorems of the voice lease where its owner releases it after aclose has begun.
use cywl_oopz.Prelude.{true, arith, List, [], ◌∷◌}
use cywl_oopz.Prelude.Text.{codes}
use cywl_oopz.VoiceLease.Manager.{
  VoiceLeaseRequest, for_music, begin_acquire, end_join, begin_close,
}
use cywl_oopz.VoiceLease.Tasks.{
  new_world, Event, acquires, join_returns, releases, closes, close_ends, handle, run, request_of,
}
use cywl_oopz.VoiceLease.Exclusive.{IsExclusive}
use cywl_oopz.VoiceLease.Owners.{run-IsExclusive}
use cywl_oopz.VoiceLease.Closed.{IsSilent, close-IsSilent}

abbrev request : VoiceLeaseRequest
request = record {
  purpose = for_music;
  area_id = codes "hall";
  channel_id = codes "stage";
  owner_key = codes "queue";
}

abbrev earlier : List Event
earlier = acquires request ∷ join_returns 1 ∷ closes ∷ []

abbrev later : List Event
later = releases true 1 ∷ acquires request ∷ []

run-IsExclusive_example : IsExclusive (run new_world earlier)
run-IsExclusive_example = run-IsExclusive earlier

close-IsSilent_example : IsSilent (run (handle (close_ends true) (run new_world earlier)) later)
unfolding run handle begin_acquire end_join begin_close request_of
close-IsSilent_example = close-IsSilent earlier later (omega arith)
