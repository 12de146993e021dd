-- ===== src/Events/Broker.antt =====
-- backend/app/events.py: `EventBroker`. A queue object is a number, and `queues` is the store of
-- their contents; a Python set of queues is a list without repetitions. Each method runs between two
-- awaits, so it is one step.
use pocage.Prelude.{
  ℕ, suc, String, Bool, true, false, not, ◌||◌, none, some, List, [], ◌∷◌, ◌++◌, filter, same,
  if◌then◌else◌, leb, get_or,
}
use pocage.Dict
use pocage.Dict.{Dict}
use pocage.Events.Queue.{StreamEvent, Queue, publish_to_queue}

pub record EventBroker : Type 0 where
  pub subscribers : Dict (List ℕ)
  pub queues : ℕ → Queue
  pub next_queue : ℕ
  pub queue_maxsize : ℕ

-- `max(1, int(queue_maxsize))`
unfoldable pub new_broker : ℕ → EventBroker
new_broker queue_maxsize = record {
  subscribers = [];
  queues = λ _. [];
  next_queue = 0;
  queue_maxsize = if leb 1 queue_maxsize then queue_maxsize else 1;
}

abbrev pub mem : ℕ → List ℕ → Bool
mem i [] = false
mem i (j ∷ js) = same i j || mem i js

abbrev pub write : (ℕ → Queue) → ℕ → Queue → ℕ → Queue
write queues i q j = if same i j then q else queues j

-- the loop of `publish`
unfoldable pub publish_each : ℕ → StreamEvent → List ℕ → (ℕ → Queue) → ℕ → Queue
publish_each maxsize event [] queues = queues
publish_each maxsize event (i ∷ is) queues =
    publish_each maxsize event is (write queues i (publish_to_queue maxsize (queues i) event))

unfoldable pub publish : EventBroker → String → StreamEvent → EventBroker
publish b run_id event = record b {
  queues = publish_each b.queue_maxsize event (get_or (Dict.get b.subscribers run_id) []) b.queues;
}

unfoldable pub subscribe : EventBroker → String → EventBroker × ℕ
subscribe b run_id =
    let queue = b.next_queue in
    let ids = get_or (Dict.get b.subscribers run_id) [] in
    (
      record b {
        subscribers =
            Dict.put b.subscribers run_id (if mem queue ids then ids else ids ++ queue ∷ []);
        queues = write b.queues queue [];
        next_queue = suc queue;
      },
      queue,
    )

abbrev pub discard : ℕ → List ℕ → List ℕ
discard queue = filter (λ i. not (same queue i))

abbrev pub is_empty {ℓ} : {A : Type ℓ} → List A → Bool
is_empty [] = true
is_empty (x ∷ xs) = false

unfoldable pub unsubscribe : EventBroker → String → ℕ → EventBroker
unsubscribe b run_id queue = elim (Dict.get b.subscribers run_id) [
  | none ↦ b
  | some ids ↦
      if is_empty (discard queue ids)
      then record b { subscribers = Dict.pop b.subscribers run_id }
      else record b { subscribers = Dict.put b.subscribers run_id (discard queue ids) }
]
