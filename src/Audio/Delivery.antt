-- ===== src/Audio/Delivery.antt =====
-- What the operations of features/audio/source_queue.py keep, in any order of their passes.
use cywl_oopz.Prelude.{
  ℕ, ◌+◌, ◌≤◌, ◌≡◌, refl, sym, ap, ◌∙◌, inl, inr, Bool, true, false, List, [], ◌∷◌, ◌++◌, arith,
  nat_beq, length, length-append, All, All-append, ok, Bool-cases, if_ind, ◌<◌,
}
use mathlib.Core.List.{append_assoc, append-nil}
use mathlib.Core.Path.{subst}
use cywl_oopz.Audio.SourceQueue.{
  AudioSourceKind, AudioBlock, AudioSourceQueue, returns, make_queue, start_generation, put,
  put_pass, put_timeout, get, aclose, is_foreign, kind_beq, refused, appended, flushed, delivered,
  get_from, music, voice,
}

-- A block that the queue's mixer may play.
abbrev pub IsOwn : ℕ → ℕ → AudioSourceKind → AudioBlock → Type 0
IsOwn generation source_id kind block =
    (block.generation ≡ generation) × (block.source_id ≡ source_id) × (block.kind ≡ kind)

pub record IsWell (q : AudioSourceQueue) : Type 0 where
  pub bounded : length q.items ≤ q.max_blocks
  pub own : All (IsOwn q.generation q.source_id q.kind) q.items
  pub accounted :
      q.stats.enqueued_blocks ≡ q.stats.delivered_blocks + q.stats.flushed_blocks + length q.items
  pub emptied : q.closed ≡ true → q.items ≡ []

-- A call, or a pass of a waiting call, that changes the queue.
pub data Step (q t : AudioSourceQueue) : Type 0 where
  puts : (block : AudioBlock) (accepted : Bool) → put block q ≡ returns accepted t → Step q t
  times_out : t ≡ put_timeout q → Step q t
  gets : (block : AudioBlock) → get q ≡ returns block t → Step q t
  starts : (generation flushed : ℕ) → start_generation generation q ≡ ok (flushed, t) → Step q t
  closes : t ≡ aclose q → Step q t

pub data Steps (q : AudioSourceQueue) : AudioSourceQueue → Type 0 where
  here : Steps q q
  next : {t u : AudioSourceQueue} → Steps q t → Step t u → Steps q u

kind_beq_eq : (a b : AudioSourceKind) → kind_beq a b ≡ true → a ≡ b
kind_beq_eq music music h = refl
kind_beq_eq voice voice h = refl
kind_beq_eq music voice h = cc
kind_beq_eq voice music h = cc

IsOwn-block :
    (block : AudioBlock) (q : AudioSourceQueue)
    → is_foreign block q ≡ false
    → nat_beq block.generation q.generation ≡ true
    → IsOwn q.generation q.source_id q.kind block
IsOwn-block block q f g = ground (arith, kind_beq_eq block.kind q.kind)

appended-IsWell :
    (block : AudioBlock) (q : AudioSourceQueue)
    → IsWell q
    → q.closed ≡ false
    → IsOwn q.generation q.source_id q.kind block
    → length q.items < q.max_blocks
    → IsWell (appended block q)
appended-IsWell block q w c o l = record {
  bounded = omega (arith, length-append q.items (block ∷ []));
  own = All-append (IsOwn q.generation q.source_id q.kind) q.items (block ∷ []) w.own (o, tt);
  accounted = omega (arith, w.accounted, length-append q.items (block ∷ []));
  emptied = λ h. cc;
}

refused-IsWell : (q : AudioSourceQueue) → IsWell q → IsWell (refused q)
refused-IsWell q w = record {
  bounded = w.bounded;
  own = w.own;
  accounted = w.accounted;
  emptied = w.emptied;
}

flushed-IsWell :
    (q : AudioSourceQueue) (generation : ℕ) (closed : Bool)
    → IsWell q
    → IsWell (record (flushed q) { generation = generation; closed = closed })
flushed-IsWell q generation closed w = record {
  bounded = omega arith;
  own = tt;
  accounted = omega (arith, w.accounted);
  emptied = λ h. refl;
}

put-IsWell :
    (block : AudioBlock) (accepted : Bool) (q t : AudioSourceQueue)
    → put block q ≡ returns accepted t
    → IsWell q
    → IsWell t
unfolding put put_pass
put-IsWell block accepted q t h w =
    ground (arith, IsOwn-block block q, appended-IsWell block q w, refused-IsWell q w)

delivered-IsWell :
    (block : AudioBlock) (rest : List AudioBlock) (q : AudioSourceQueue)
    → q.items ≡ block ∷ rest
    → IsWell q
    → IsWell (delivered rest q) × IsOwn q.generation q.source_id q.kind block
delivered-IsWell block rest q e w =
    let own = subst (All (IsOwn q.generation q.source_id q.kind)) e w.own in
    (
      record {
        bounded = omega (arith, ap length e, w.bounded);
        own = own.1;
        accounted = omega (arith, ap length e, w.accounted);
        emptied = λ c. cc (e, w.emptied c);
      },
      own.0,
    )

get-delivered :
    (block : AudioBlock) (items : List AudioBlock) (q t : AudioSourceQueue)
    → get_from items q ≡ returns block t
    → (rest : List AudioBlock) × (items ≡ block ∷ rest) × (t ≡ delivered rest q)
get-delivered block [] q t h = elim (Bool-cases q.closed) [
  | inl c ↦ absurd (ground arith)
  | inr c ↦ absurd (ground arith)
]
get-delivered block (b ∷ rest) q t h = (rest, ground arith, ground arith)

get-IsWell :
    (block : AudioBlock) (q t : AudioSourceQueue)
    → get q ≡ returns block t
    → IsWell q
    → IsWell t × IsOwn q.generation q.source_id q.kind block
unfolding get
get-IsWell block q t h w =
    let (rest, e, after) = get-delivered block q.items q t h in
    let (kept, own) = delivered-IsWell block rest q e w in (subst IsWell (sym after) kept, own)

start_generation-IsWell :
    (generation flushed : ℕ) (q t : AudioSourceQueue)
    → start_generation generation q ≡ ok (flushed, t)
    → IsWell q
    → IsWell t
unfolding start_generation
start_generation-IsWell generation flushed q t h w =
    ground (arith, flushed-IsWell q generation q.closed w)

aclose-IsWell : (q : AudioSourceQueue) → IsWell q → IsWell (aclose q)
unfolding aclose
aclose-IsWell q w = if_ind IsWell q.closed (λ c. w) (λ c. flushed-IsWell q q.generation true w)

put_timeout-IsWell : (q : AudioSourceQueue) → IsWell q → IsWell (put_timeout q)
unfolding put_timeout
put_timeout-IsWell q w = record {
  bounded = w.bounded;
  own = w.own;
  accounted = w.accounted;
  emptied = w.emptied;
}

Step-IsWell : (q t : AudioSourceQueue) → Step q t → IsWell q → IsWell t
Step-IsWell q t (puts block accepted h) w = put-IsWell block accepted q t h w
Step-IsWell q t (times_out e) w = rw e (put_timeout-IsWell q w)
Step-IsWell q t (gets block h) w = (get-IsWell block q t h w).0
Step-IsWell q t (starts generation flushed h) w = start_generation-IsWell generation flushed q t h w
Step-IsWell q t (closes e) w = rw e (aclose-IsWell q w)

Steps-IsWell : (q t : AudioSourceQueue) → Steps q t → IsWell q → IsWell t
Steps-IsWell q t here w = w
Steps-IsWell q u (next {t} run s) w = Step-IsWell t u s (Steps-IsWell q t run w)

make_queue-IsWell :
    (source_id duration : ℕ) (kind : AudioSourceKind) (positive : Bool) (q : AudioSourceQueue)
    → make_queue source_id kind duration positive ≡ ok q
    → IsWell q
unfolding make_queue
make_queue-IsWell source_id duration kind positive q h =
    let empty : q.items ≡ [] = ground arith in
    record {
      bounded = ground arith;
      own = subst (All (IsOwn q.generation q.source_id q.kind)) (sym empty) tt;
      accounted = ground arith;
      emptied = λ c. empty;
    }

-- After any calls on a new queue, in any order of their passes, the queue is within its bound, holds
-- blocks of its own source and current generation only, has none when it is closed, and every block
-- that it accepted was delivered, was flushed or is still held.
pub make_queue-Steps :
    (source_id duration : ℕ) (kind : AudioSourceKind) (positive : Bool) (q t : AudioSourceQueue)
    → make_queue source_id kind duration positive ≡ ok q
    → Steps q t
    → IsWell t
make_queue-Steps source_id duration kind positive q t made run =
    Steps-IsWell q t run (make_queue-IsWell source_id duration kind positive q made)

-- No block of a superseded generation or of another source is ever delivered by a new queue, after
-- any calls on it.
get-Steps :
    (source_id duration : ℕ) (kind : AudioSourceKind) (positive : Bool) (q t u : AudioSourceQueue)
    (block : AudioBlock)
    → make_queue source_id kind duration positive ≡ ok q
    → Steps q t
    → get t ≡ returns block u
    → IsOwn t.generation t.source_id t.kind block
get-Steps source_id duration kind positive q t u block made run got =
    (get-IsWell block t u got (make_queue-Steps source_id duration kind positive q t made run)).1

-- The puts and gets of one generation, with the blocks accepted and those delivered so far, the
-- first ones first.
pub data Flow (q : AudioSourceQueue)
    : List AudioBlock → List AudioBlock → AudioSourceQueue → Type 0 where
  here : Flow q [] [] q
  accepts :
      {a d : List AudioBlock} {t u : AudioSourceQueue} (block : AudioBlock)
      → Flow q a d t
      → put block t ≡ returns true u
      → Flow q (a ++ block ∷ []) d u
  refuses :
      {a d : List AudioBlock} {t u : AudioSourceQueue} (block : AudioBlock)
      → Flow q a d t
      → put block t ≡ returns false u
      → Flow q a d u
  delivers :
      {a d : List AudioBlock} {t u : AudioSourceQueue} (block : AudioBlock)
      → Flow q a d t
      → get t ≡ returns block u
      → Flow q a (d ++ block ∷ []) u

put-true :
    (block : AudioBlock) (t u : AudioSourceQueue)
    → put block t ≡ returns true u
    → u.items ≡ t.items ++ block ∷ []
unfolding put put_pass
put-true block t u h = ground arith

put-false :
    (block : AudioBlock) (t u : AudioSourceQueue)
    → put block t ≡ returns false u
    → u.items ≡ t.items
unfolding put put_pass
put-false block t u h = ground arith

-- Within one generation, what the queue held and then accepted is what it delivered, followed by
-- what it still holds: blocks are delivered in the order in which they were accepted, each once.
pub Flow-ordered :
    (q t : AudioSourceQueue) (accepted sent : List AudioBlock)
    → Flow q accepted sent t
    → q.items ++ accepted ≡ sent ++ t.items
unfolding get
Flow-ordered q t accepted sent here = append-nil q.items
Flow-ordered q u accepted sent (accepts {a} {d} {t} block flow h) =
    sym (append_assoc q.items a (block ∷ []))
    ∙ ap (λ l. l ++ block ∷ []) (Flow-ordered q t a d flow)
    ∙ append_assoc d t.items (block ∷ [])
    ∙ ap (λ l. d ++ l) (sym (put-true block t u h))
Flow-ordered q u accepted sent (refuses {a} {d} {t} block flow h) =
    Flow-ordered q t a d flow ∙ ap (λ l. d ++ l) (sym (put-false block t u h))
Flow-ordered q u accepted sent (delivers {a} {d} {t} block flow h) =
    let (rest, e, after) = get-delivered block t.items t u h in
    Flow-ordered q t a d flow
    ∙ ap (λ l. d ++ l) e
    ∙ sym (append_assoc d (block ∷ []) rest)
    ∙ ap (λ (v : AudioSourceQueue). (d ++ block ∷ []) ++ v.items) (sym after)
