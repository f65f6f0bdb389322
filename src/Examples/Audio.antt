-- ===== src/Examples/Audio.antt =====
-- The source queue's theorems at a queue of two blocks.
use cywl_oopz.Prelude.{◌≡◌, refl, true, false, [], ◌∷◌, ◌++◌}
use cywl_oopz.Audio.SourceQueue.{
  AudioBlock, AudioSourceQueue, music, make_queue, put, put_pass, get, appended, delivered,
}
use cywl_oopz.Audio.Delivery.{IsWell, Step, Steps, Flow, make_queue-Steps, Flow-ordered}

abbrev empty : AudioSourceQueue
empty = record {
  source_id = 7;
  kind = music;
  max_blocks = 2;
  generation = 0;
  items = [];
  closed = false;
  stats = record {
    enqueued_blocks = 0;
    delivered_blocks = 0;
    flushed_blocks = 0;
    stale_blocks = 0;
    backpressure_timeouts = 0;
  };
}

abbrev block : AudioBlock
block = record {
  source_id = 7;
  kind = music;
  generation = 0;
  source_start_frame = 0;
  valid_frames = 960;
}

abbrev holding : AudioSourceQueue
holding = appended block empty

accepted : Steps empty holding
unfolding put put_pass
accepted = Steps.next Steps.here (Step.puts block true refl)

make_queue-Steps_example : IsWell holding
unfolding make_queue
make_queue-Steps_example = make_queue-Steps 7 40 music true empty holding refl accepted

Flow-ordered_example : [] ++ block ∷ [] ≡ (block ∷ []) ++ []
unfolding put put_pass get
Flow-ordered_example =
    Flow-ordered empty (delivered [] holding) (block ∷ []) (block ∷ [])
      (Flow.delivers block (Flow.accepts block Flow.here refl) refl)
