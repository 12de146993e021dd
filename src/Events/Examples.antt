-- ===== src/Events/Examples.antt =====
-- backend/app/events.py: the theorems on queues and on the broker at concrete events.
use mathlib.Core.List.{Sublistᴰ}
use pocage.Prelude.{String, ◌≡◌, refl, List, [], ◌∷◌, ◌++◌, arith, inr, filter}
use pocage.Dict
use pocage.Json.Defs.{null}
use pocage.Events.Queue.{
  StreamEvent, Queue, is_critical, is_coalescing, is_low_priority, publish_to_queue, admit,
  put_nowait, coalesce,
}
use pocage.Events.Policy.{
  publish-critical_last, publish-keeps_critical, publish-adds_critical, publish-sublist,
}
use pocage.Events.Broker.{EventBroker, new_broker, publish, publish_each, subscribe}
use pocage.Events.Delivery
use pocage.Events.Delivery.{
  IsValid, Call, subscribes, publishes, calls, publish_delivers, calls-IsValid,
}

abbrev event : String → StreamEvent
event t = record { event_type = t; payload = null }

abbrev full_queue : Queue
full_queue = event "run.accepted" ∷ event "run.session_update" ∷ event "run.queued" ∷ []

publish-critical_last_example :
    (kept : Queue) × (publish_to_queue 3 full_queue (event "run.error")
      ≡ kept ++ event "run.error" ∷ [])
unfolding is_critical
publish-critical_last_example =
    publish-critical_last 3 full_queue (event "run.error") (omega arith) (omega arith) refl

publish-keeps_critical_example :
    filter is_critical (publish_to_queue 3 full_queue (event "run.started"))
    ≡ filter is_critical full_queue
unfolding is_critical
publish-keeps_critical_example =
    publish-keeps_critical 3 full_queue (event "run.started") (omega arith) (omega arith) refl

publish-adds_critical_example :
    filter is_critical (publish_to_queue 3 full_queue (event "run.error"))
    ≡ filter is_critical full_queue ++ event "run.error" ∷ []
unfolding is_critical is_low_priority
publish-adds_critical_example =
    publish-adds_critical 3 full_queue (event "run.error") (omega arith) (omega arith) refl
      (inr refl)

publish-sublist_example :
    Sublistᴰ
      (publish_to_queue 3 full_queue (event "run.error"))
      (full_queue ++ event "run.error" ∷ [])
publish-sublist_example =
    publish-sublist 3 full_queue (event "run.error") (omega arith) (omega arith)

abbrev history : List Call
history = subscribes "a" ∷ subscribes "b" ∷ publishes "a" (event "run.accepted") ∷ []

abbrev broker : EventBroker
broker = calls (new_broker 2) history

publish_delivers_example :
    (publish broker "a" (event "run.error")).queues 0
    ≡ event "run.accepted" ∷ event "run.error" ∷ []
unfolding calls Delivery.call subscribe publish publish_each publish_to_queue admit put_nowait
    coalesce is_coalescing Dict.get Dict.put new_broker
publish_delivers_example =
    publish_delivers broker "a" (event "run.error") 0 (calls-IsValid 2 history)

calls-IsValid_example : IsValid broker
calls-IsValid_example = calls-IsValid 2 history
