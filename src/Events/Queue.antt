-- ===== src/Events/Queue.antt =====
-- backend/app/events.py: one subscriber's bounded queue, oldest event first, and what
-- `_publish_to_queue` does to it. A `put_nowait` under `suppress(QueueFull)` is `put_nowait` here.
use pocage.Prelude.{
  ℕ, String, Bool, true, false, not, ◌&&◌, ◌||◌, List, [], ◌∷◌, ◌++◌, ◌==◌, leb, length, one_of,
  if◌then◌else◌,
}
use pocage.Json.Defs.{Value}

pub record StreamEvent : Type 0 where
  pub event_type : String
  pub payload : Value

abbrev pub critical_event_types : List String
critical_event_types =
    "run.accepted" ∷ "run.completed" ∷ "run.error" ∷ "run.permission.decision"
    ∷ "run.permission.requested" ∷ []

abbrev pub coalescing_event_types : List String
coalescing_event_types = "run.session_update" ∷ []

abbrev pub low_priority_event_types : List String
low_priority_event_types = coalescing_event_types ++ "run.queued" ∷ "run.started" ∷ []

unfoldable pub is_critical : StreamEvent → Bool
is_critical e = one_of e.event_type critical_event_types

unfoldable pub is_coalescing : StreamEvent → Bool
is_coalescing e = one_of e.event_type coalescing_event_types

unfoldable pub is_low_priority : StreamEvent → Bool
is_low_priority e = one_of e.event_type low_priority_event_types

abbrev pub Queue : Type 0
Queue = List StreamEvent

-- `queue.full()` of a queue with `maxsize` above 0
abbrev pub is_full : ℕ → Queue → Bool
is_full maxsize q = leb maxsize (length q)

unfoldable pub put_nowait : ℕ → Queue → StreamEvent → Queue
put_nowait maxsize q e = if is_full maxsize q then q else q ++ e ∷ []

-- the loop that empties the queue: what it keeps, and whether it dropped one
unfoldable pub drain : (StreamEvent → Bool) → Bool → Queue → Queue × Bool
drain predicate dropped [] = ([], dropped)
drain predicate dropped (current ∷ rest) =
    let (kept, dropped') = drain predicate (dropped || predicate current) rest in
    if not dropped && predicate current then (kept, dropped') else (current ∷ kept, dropped')

unfoldable pub refill : ℕ → Queue → Queue → Queue
refill maxsize q [] = q
refill maxsize q (e ∷ kept) = refill maxsize (put_nowait maxsize q e) kept

unfoldable pub drop_first_matching : ℕ → (StreamEvent → Bool) → Queue → Queue × Bool
drop_first_matching maxsize predicate q =
    let (kept, dropped) = drain predicate false q in (refill maxsize [] kept, dropped)

unfoldable pub drop_oldest : Queue → Queue × Bool
drop_oldest [] = ([], false)
drop_oldest (e ∷ q) = (q, true)

-- the first statement of `_publish_to_queue`
unfoldable pub coalesce : ℕ → Queue → StreamEvent → Queue
coalesce maxsize q event =
    if is_coalescing event
    then (drop_first_matching maxsize (λ current. current.event_type == event.event_type) q).0
    else q

-- a critical event at a full queue
unfoldable pub force_put : ℕ → Queue → StreamEvent → Queue
force_put maxsize q event =
    let (q', dropped) = drop_first_matching maxsize is_low_priority q in
    put_nowait maxsize (if dropped then q' else (drop_oldest q').0) event

-- any other event at a full queue: the two last branches do the same
unfoldable pub replace_low_priority : ℕ → Queue → StreamEvent → Queue
replace_low_priority maxsize q event =
    let (q', dropped) = drop_first_matching maxsize is_low_priority q in
    if dropped then put_nowait maxsize q' event else q'

unfoldable pub admit : ℕ → Queue → StreamEvent → Queue
admit maxsize q event =
    if not (is_full maxsize q)
    then put_nowait maxsize q event
    else if is_critical event
    then force_put maxsize q event
    else if is_low_priority event
    then replace_low_priority maxsize q event
    else replace_low_priority maxsize q event

unfoldable pub publish_to_queue : ℕ → Queue → StreamEvent → Queue
publish_to_queue maxsize q event = admit maxsize (coalesce maxsize q event) event
