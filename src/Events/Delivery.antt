-- ===== src/Events/Delivery.antt =====
-- backend/app/events.py: who gets an event, and what stays true of the broker.
use pocage.Prelude.{
  ℕ, suc, ◌≤◌, ◌<◌, String, ◌≡◌, refl, subst, false, not, ◌||◌, some, List, [], ◌∷◌, ◌++◌, arith,
  same, if◌then◌else◌, get_or, length, All, All-append, All-filter, Bool-cases, Option-cases, inl,
  inr, ◌==◌,
}
use pocage.Dict
use pocage.Dict.{Dict, get-put, get-pop}
use pocage.Events.Queue.{StreamEvent, Queue, publish_to_queue}
use pocage.Events.Policy.{length-publish_to_queue}
use pocage.Events.Broker.{
  EventBroker, new_broker, mem, write, publish_each, publish, subscribe, discard, is_empty,
  unsubscribe,
}

abbrev pub Distinct : List ℕ → Type 0
Distinct [] = Unit
Distinct (i ∷ is) = (mem i is ≡ false) × Distinct is

-- A run in the table has at least one subscriber, none twice, and all of them are known queues.
pub record IsSubscribed (next : ℕ) (ids : List ℕ) : Type 0 where
  pub some_subscriber : is_empty ids ≡ false
  pub distinct : Distinct ids
  pub known : All (λ i. i < next) ids

pub record IsValid (b : EventBroker) : Type 0 where
  pub positive : 0 < b.queue_maxsize
  pub bounded : (i : ℕ) → length (b.queues i) ≤ b.queue_maxsize
  pub subscribed :
      (run_id : String) (ids : List ℕ)
      → Dict.get b.subscribers run_id ≡ some ids
      → IsSubscribed b.next_queue ids

publish_each_lem :
    (maxsize : ℕ) (event : StreamEvent) (is : List ℕ) (queues : ℕ → Queue) (j : ℕ)
    → Distinct is
    → publish_each maxsize event is queues j
      ≡ (if mem j is then publish_to_queue maxsize (queues j) event else queues j)
unfolding publish_each
publish_each_lem maxsize event [] queues j d = refl
publish_each_lem maxsize event (i ∷ is) queues j d = ground (
  arith,
  publish_each_lem maxsize event is (write queues i (publish_to_queue maxsize (queues i) event)) j
      d.1,
)

known_fresh : (n : ℕ) (ids : List ℕ) → All (λ i. i < n) ids → mem n ids ≡ false
known_fresh n [] k = refl
known_fresh n (i ∷ ids) k = ground (arith, known_fresh n ids k.1)

known_mono : (n : ℕ) (ids : List ℕ) → All (λ i. i < n) ids → All (λ i. i < suc n) ids
known_mono n [] k = tt
known_mono n (i ∷ ids) k = (omega arith, known_mono n ids k.1)

mem-append : (i j : ℕ) (ids : List ℕ) → mem i (ids ++ j ∷ []) ≡ mem i ids || same i j
mem-append i j [] = ground arith
mem-append i j (k ∷ ids) = ground (arith, mem-append i j ids)

Distinct-append :
    (i : ℕ) (ids : List ℕ) → Distinct ids → mem i ids ≡ false → Distinct (ids ++ i ∷ [])
Distinct-append i [] d h = (refl, tt)
Distinct-append i (j ∷ ids) d h = ground (arith, Distinct-append i ids d.1, mem-append j i ids)

mem-discard : (i q : ℕ) (ids : List ℕ) → mem i ids ≡ false → mem i (discard q ids) ≡ false
mem-discard i q [] h = refl
mem-discard i q (j ∷ ids) h = ground (arith, mem-discard i q ids)

Distinct-discard : (q : ℕ) (ids : List ℕ) → Distinct ids → Distinct (discard q ids)
Distinct-discard q [] d = tt
Distinct-discard q (j ∷ ids) d = ground (arith, Distinct-discard q ids d.1, mem-discard j q ids)

is_empty-append : (ids : List ℕ) (i : ℕ) → is_empty (ids ++ i ∷ []) ≡ false
is_empty-append [] i = refl
is_empty-append (j ∷ ids) i = refl

-- What holds of the subscribers of a run that may be missing from the table.
record AreFine (n : ℕ) (ids : List ℕ) : Type 0 where
  distinct : Distinct ids
  known : All (λ i. i < n) ids

subscribers_fine :
    (b : EventBroker) (run_id : String)
    → IsValid b
    → AreFine b.next_queue (get_or (Dict.get b.subscribers run_id) [])
subscribers_fine b run_id v = elim (Option-cases (Dict.get b.subscribers run_id)) [
  | inl e ↦ rw e (record { distinct = tt; known = tt })
  | inr (ids, e) ↦ rw e (record {
    distinct = (v.subscribed run_id ids e).distinct;
    known = (v.subscribed run_id ids e).known;
  })
]

publish_each_bounded :
    (maxsize : ℕ) (event : StreamEvent) (is : List ℕ) (queues : ℕ → Queue)
    → 0 < maxsize
    → ((i : ℕ) → length (queues i) ≤ maxsize)
    → (i : ℕ) → length (publish_each maxsize event is queues i) ≤ maxsize
unfolding publish_each
publish_each_bounded maxsize event [] queues pos h i = h i
publish_each_bounded maxsize event (j ∷ is) queues pos h i =
    publish_each_bounded maxsize event is
      (write queues j (publish_to_queue maxsize (queues j) event)) pos
      (λ k. ground (arith, h j, h k, length-publish_to_queue maxsize (queues j) event)) i

-- With a valid broker, `publish` hands the event once to `publish_to_queue` for the queue of each
-- subscriber of its run, and leaves every other queue as it is.
pub publish_delivers :
    (b : EventBroker) (run_id : String) (event : StreamEvent) (i : ℕ)
    → IsValid b
    → (publish b run_id event).queues i ≡ (
        if mem i (get_or (Dict.get b.subscribers run_id) [])
        then publish_to_queue b.queue_maxsize (b.queues i) event
        else b.queues i)
unfolding publish
publish_delivers b run_id event i v =
    publish_each_lem b.queue_maxsize event (get_or (Dict.get b.subscribers run_id) []) b.queues i
      (subscribers_fine b run_id v).distinct

publish-IsValid :
    (b : EventBroker) (run_id : String) (event : StreamEvent)
    → IsValid b
    → IsValid (publish b run_id event)
unfolding publish
publish-IsValid b run_id event v = record {
  positive = v.positive;
  bounded =
      publish_each_bounded b.queue_maxsize event (get_or (Dict.get b.subscribers run_id) [])
        b.queues v.positive v.bounded;
  subscribed = v.subscribed;
}

weaken : (n : ℕ) (ids : List ℕ) → IsSubscribed n ids → IsSubscribed (suc n) ids
weaken n ids s = record {
  some_subscriber = s.some_subscriber;
  distinct = s.distinct;
  known = known_mono n ids s.known;
}

join :
    (n : ℕ) (ids : List ℕ)
    → AreFine n ids
    → IsSubscribed (suc n) (if mem n ids then ids else ids ++ n ∷ [])
join n ids f = rw (known_fresh n ids f.known) (record {
  some_subscriber = is_empty-append ids n;
  distinct = Distinct-append n ids f.distinct (known_fresh n ids f.known);
  known = All-append (λ i. i < suc n) ids (n ∷ []) (known_mono n ids f.known) (omega arith);
})

leave :
    (n q : ℕ) (ids : List ℕ)
    → IsSubscribed n ids
    → is_empty (discard q ids) ≡ false
    → IsSubscribed n (discard q ids)
leave n q ids s h = record {
  some_subscriber = h;
  distinct = Distinct-discard q ids s.distinct;
  known = All-filter (λ i. i < n) (λ i. not (same q i)) ids s.known;
}

put_subscribed :
    (n : ℕ) (d : Dict (List ℕ)) (k : String) (new : List ℕ)
    → IsSubscribed n new
    → ((j : String) (ids : List ℕ) → Dict.get d j ≡ some ids → IsSubscribed n ids)
    → (j : String) (ids : List ℕ) → Dict.get (Dict.put d k new) j ≡ some ids
    → IsSubscribed n ids
put_subscribed n d k new s old j ids h = elim (Bool-cases (k == j)) [
  | inl e ↦ subst (IsSubscribed n) (ground (arith, get-put d k j new)) s
  | inr e ↦ old j ids (ground (arith, get-put d k j new))
]

subscribe-IsValid : (b : EventBroker) (run_id : String) → IsValid b → IsValid (subscribe b run_id).0
unfolding subscribe
subscribe-IsValid b run_id v = record {
  positive = v.positive;
  bounded = λ i. ground (arith, v.bounded i);
  subscribed =
      put_subscribed (suc b.next_queue) b.subscribers run_id _
        (join b.next_queue _ (subscribers_fine b run_id v))
        (λ j ids h. weaken b.next_queue ids (v.subscribed j ids h));
}

-- `unsubscribe` at a run that is in the table.
unsubscribe_known :
    (b : EventBroker) (run_id : String) (queue : ℕ) (ids : List ℕ)
    → IsValid b
    → Dict.get b.subscribers run_id ≡ some ids
    → IsValid (unsubscribe b run_id queue)
unfolding unsubscribe
unsubscribe_known b run_id queue ids v h = elim (Bool-cases (is_empty (discard queue ids))) [
  | inl e ↦
      rw (h, unsubscribe, e)
        (record {
          positive = v.positive;
          bounded = v.bounded;
          subscribed = λ j js g. v.subscribed j js (ground (arith, get-pop b.subscribers run_id j));
        })
  | inr e ↦
      rw (h, unsubscribe, e)
        (record {
          positive = v.positive;
          bounded = v.bounded;
          subscribed =
              put_subscribed b.next_queue b.subscribers run_id (discard queue ids)
                (leave b.next_queue queue ids (v.subscribed run_id ids h) e) v.subscribed;
        })
]

unsubscribe-IsValid :
    (b : EventBroker) (run_id : String) (queue : ℕ)
    → IsValid b
    → IsValid (unsubscribe b run_id queue)
unfolding unsubscribe
unsubscribe-IsValid b run_id queue v = elim (Option-cases (Dict.get b.subscribers run_id)) [
  | inl e ↦ rw (e, unsubscribe) v
  | inr (ids, e) ↦ unsubscribe_known b run_id queue ids v e
]

pub data Call : Type 0 where
  publishes : String → StreamEvent → Call
  subscribes : String → Call
  unsubscribes : String → ℕ → Call

unfoldable pub call : EventBroker → Call → EventBroker
call b (publishes run_id event) = publish b run_id event
call b (subscribes run_id) = (subscribe b run_id).0
call b (unsubscribes run_id queue) = unsubscribe b run_id queue

unfoldable pub calls : EventBroker → List Call → EventBroker
calls b [] = b
calls b (c ∷ cs) = calls (call b c) cs

call-IsValid : (b : EventBroker) (c : Call) → IsValid b → IsValid (call b c)
unfolding call
call-IsValid b (publishes run_id event) v = publish-IsValid b run_id event v
call-IsValid b (subscribes run_id) v = subscribe-IsValid b run_id v
call-IsValid b (unsubscribes run_id queue) v = unsubscribe-IsValid b run_id queue v

calls_from : (b : EventBroker) (cs : List Call) → IsValid b → IsValid (calls b cs)
unfolding calls
calls_from b [] v = v
calls_from b (c ∷ cs) v = calls_from (call b c) cs (call-IsValid b c v)

new_broker-IsValid : (n : ℕ) → IsValid (new_broker n)
unfolding new_broker Dict.get
new_broker-IsValid n = record {
  positive = ground arith;
  bounded = λ i. ground arith;
  subscribed = λ j ids h. cc;
}

-- After any publishing, subscribing and unsubscribing, every queue is within its bound, and the
-- table holds no run without subscribers, no repeated subscriber and no unknown queue.
pub calls-IsValid :
    (queue_maxsize : ℕ) (cs : List Call) → IsValid (calls (new_broker queue_maxsize) cs)
calls-IsValid n cs = calls_from (new_broker n) cs (new_broker-IsValid n)
