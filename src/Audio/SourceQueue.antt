-- ===== src/Audio/SourceQueue.antt =====
-- features/audio/source_queue.py. A method that waits on the condition runs one pass of its loop at
-- a time, and may run the next one when it is notified.
use cywl_oopz.Prelude.{
  ℕ, ◌+◌, ◌/◌, Bool, true, false, not, ◌&&◌, ◌||◌, List, [], ◌∷◌, ◌++◌, if◌then◌else◌, ltb, leb,
  nat_beq, any, length, Result, ok, ◌>>◌, raise_if,
}

-- The samples, which the queue passes on unread, are left out of a block.
pub data AudioSourceKind : Type 0 where
  music voice : AudioSourceKind

pub record AudioBlock : Type 0 where
  pub source_id : ℕ
  pub kind : AudioSourceKind
  pub generation : ℕ
  pub source_start_frame : ℕ
  pub valid_frames : ℕ

abbrev pub kind_beq : AudioSourceKind → AudioSourceKind → Bool
kind_beq music music = true
kind_beq voice voice = true
kind_beq _ _ = false

pub record AudioSourceQueueStats : Type 0 where
  pub enqueued_blocks : ℕ
  pub delivered_blocks : ℕ
  pub flushed_blocks : ℕ
  pub stale_blocks : ℕ
  pub backpressure_timeouts : ℕ

pub record AudioSourceQueue : Type 0 where
  pub source_id : ℕ
  pub kind : AudioSourceKind
  pub max_blocks : ℕ
  pub generation : ℕ
  pub items : List AudioBlock
  pub closed : Bool
  pub stats : AudioSourceQueueStats

pub data AudioQueueError : Type 0 where
  value_error queue_closed backpressure : AudioQueueError

abbrev pub block_duration_ms : ℕ
block_duration_ms = 20

-- __init__; the put timeout is positive or not.
unfoldable pub make_queue : ℕ → AudioSourceKind → ℕ → Bool → Result AudioQueueError AudioSourceQueue
make_queue source_id kind max_duration_ms positive_timeout = do
  raise_if (ltb max_duration_ms block_duration_ms || not positive_timeout) value_error
  ok (record {
    source_id = source_id;
    kind = kind;
    max_blocks = max_duration_ms / block_duration_ms;
    generation = 0;
    items = [];
    closed = false;
    stats = record {
      enqueued_blocks = 0;
      delivered_blocks = 0;
      flushed_blocks = 0;
      stale_blocks = 0;
      backpressure_timeouts = 0;
    };
  })

-- self._items.clear(), counted as flushed
abbrev pub flushed : AudioSourceQueue → AudioSourceQueue
flushed q = record q {
  items = [];
  stats = record q.stats { flushed_blocks = q.stats.flushed_blocks + length q.items };
}

-- start_generation: the number of flushed blocks, and the queue.
unfoldable pub start_generation :
    ℕ → AudioSourceQueue → Result AudioQueueError (ℕ × AudioSourceQueue)
start_generation generation q = do
  raise_if q.closed queue_closed
  raise_if (leb generation q.generation) value_error
  ok (length q.items, record (flushed q) { generation = generation })

-- What one pass of a waiting method ends in.
pub data Pass {ℓ} (A : Type ℓ) : Type ℓ where
  returns : A → AudioSourceQueue → Pass A
  waits : Pass A
  raises : AudioQueueError → Pass A

abbrev pub refused : AudioSourceQueue → AudioSourceQueue
refused q = record q { stats = record q.stats { stale_blocks = q.stats.stale_blocks + 1 } }

abbrev pub appended : AudioBlock → AudioSourceQueue → AudioSourceQueue
appended block q = record q {
  items = q.items ++ block ∷ [];
  stats = record q.stats { enqueued_blocks = q.stats.enqueued_blocks + 1 };
}

-- One pass of put, once the block has been validated.
unfoldable pub put_pass : AudioBlock → AudioSourceQueue → Pass Bool
put_pass block q =
    if q.closed
    then raises queue_closed
    else if not (nat_beq block.generation q.generation)
    then returns false (refused q)
    else if ltb (length q.items) q.max_blocks
    then returns true (appended block q)
    else waits

-- _validate_block
abbrev pub is_foreign : AudioBlock → AudioSourceQueue → Bool
is_foreign block q = not (nat_beq block.source_id q.source_id) || not (kind_beq block.kind q.kind)

-- A pass of put from its start.
unfoldable pub put : AudioBlock → AudioSourceQueue → Pass Bool
unfolding put_pass
put block q = if is_foreign block q then raises value_error else put_pass block q

-- The except clause of put, for a put that timed out; it raises AudioBackpressureError then.
unfoldable pub put_timeout : AudioSourceQueue → AudioSourceQueue
put_timeout q = record q {
  stats = record q.stats { backpressure_timeouts = q.stats.backpressure_timeouts + 1 };
}

abbrev pub delivered : List AudioBlock → AudioSourceQueue → AudioSourceQueue
delivered rest q = record q {
  items = rest;
  stats = record q.stats { delivered_blocks = q.stats.delivered_blocks + 1 };
}

abbrev pub get_from : List AudioBlock → AudioSourceQueue → Pass AudioBlock
get_from [] q = if q.closed then raises queue_closed else waits
get_from (block ∷ rest) q = returns block (delivered rest q)

-- One pass of get.
unfoldable pub get : AudioSourceQueue → Pass AudioBlock
get q = get_from q.items q

-- The loop test of wait_empty.
unfoldable pub must_wait : ℕ → AudioSourceQueue → Bool
must_wait generation q =
    not q.closed
    && nat_beq generation q.generation
    && any (λ (item : AudioBlock). nat_beq item.generation generation) q.items

-- aclose
unfoldable pub aclose : AudioSourceQueue → AudioSourceQueue
aclose q = if q.closed then q else record (flushed q) { closed = true }
