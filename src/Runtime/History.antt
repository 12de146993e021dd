-- ===== src/Runtime/History.antt =====
-- backend/app/runtime_state.py: the stored events of a run against its full history.
use pocage.Prelude.{
  ℕ, ◌+◌, ◌-◌, ◌<◌, String, ◌≡◌, refl, subst, ◌≢◌, List, [], ◌∷◌, ◌++◌, append-nil, append_assoc,
  none, arith, drop, drop-append, drop-drop, length, length-append, length-drop, get_or, eq_false,
}
use pocage.Dict
use pocage.Dict.{get-put, get-put_self}
use pocage.Json.Defs.{Fields}
use pocage.Runtime.Payload.{normalized_event_payload}
use pocage.Runtime.State.{RunEvent, RuntimeState}
use pocage.Runtime.RunEvents.{prune_events, store_run_event, list_run_events}

-- What a call of `store_run_event` is given besides the run.
pub record Stored : Type 0 where
  pub event_type : String
  pub payload : Fields
  pub now : String
  pub event_id : String

unfoldable pub store_all : RuntimeState → String → List Stored → RuntimeState
store_all s run_id [] = s
store_all s run_id (e ∷ es) =
    store_all (store_run_event s run_id e.event_type e.payload e.now e.event_id).0 run_id es

abbrev pub row_of : ℕ → String → ℕ → Stored → RunEvent
row_of max_bytes run_id seq e = record {
  event_id = e.event_id;
  run_id = run_id;
  seq = seq;
  event_type = e.event_type;
  payload = normalized_event_payload max_bytes e.event_type e.payload;
  created_at = e.now;
}

-- The history with nothing dropped, its events numbered from `n + 1`.
abbrev pub full_history : ℕ → String → ℕ → List Stored → List RunEvent
full_history max_bytes run_id n [] = []
full_history max_bytes run_id n (e ∷ es) =
    row_of max_bytes run_id (n + 1) e ∷ full_history max_bytes run_id (n + 1) es

prune_append :
    (limit : ℕ) (xs : List RunEvent) (x : RunEvent)
    → 0 < limit
    → prune_events limit (drop (length xs - limit) xs ++ x ∷ [])
      ≡ drop (length (xs ++ x ∷ []) - limit) (xs ++ x ∷ [])
unfolding prune_events
prune_append limit xs x pos = ground (
  arith,
  drop-append (length xs - limit) xs (x ∷ []),
  length-append xs (x ∷ []),
  drop-drop 1 (length xs - limit) (xs ++ x ∷ []),
  length-append (drop (length xs - limit) xs) (x ∷ []),
  length-drop (length xs - limit) xs,
)

-- The table of a run holds the end of the history `xs`, and its counter is the length of it.
pub record HasHistory (s : RuntimeState) (run_id : String) (xs : List RunEvent) : Type 0 where
  pub counted : get_or (Dict.get s.run_event_seq run_id) 0 ≡ length xs
  pub stored : list_run_events s run_id ≡ drop (length xs - s.limits.max_events_per_run) xs

store-HasHistory :
    (s : RuntimeState) (run_id : String) (xs : List RunEvent) (e : Stored)
    → 0 < s.limits.max_events_per_run
    → HasHistory s run_id xs
    → HasHistory
        (store_run_event s run_id e.event_type e.payload e.now e.event_id).0
        run_id
        (xs ++ row_of s.limits.max_event_payload_bytes run_id (length xs + 1) e ∷ [])
unfolding store_run_event list_run_events
store-HasHistory s run_id xs e pos h = record {
  counted =
      rw (get-put_self s.run_event_seq run_id (get_or (Dict.get s.run_event_seq run_id) 0 + 1)) (
        omega (
          arith,
          h.counted,
          length-append xs (row_of s.limits.max_event_payload_bytes run_id (length xs + 1) e ∷ []),
        ));
  stored =
      rw (get-put_self {0} s.run_events run_id, h.stored, h.counted)
        (prune_append s.limits.max_events_per_run xs
          (row_of s.limits.max_event_payload_bytes run_id (length xs + 1) e) pos);
}

history_cons :
    (b : ℕ) (run_id : String) (xs : List RunEvent) (e : Stored) (es : List Stored)
    → (xs ++ row_of b run_id (length xs + 1) e ∷ [])
        ++ full_history b run_id (length (xs ++ row_of b run_id (length xs + 1) e ∷ [])) es
      ≡ xs ++ full_history b run_id (length xs) (e ∷ es)
history_cons b run_id xs e es = rw (length-append xs (row_of b run_id (length xs + 1) e ∷ [])) (
    append_assoc xs (row_of b run_id (length xs + 1) e ∷ [])
      (full_history b run_id (length xs + 1) es))

limits-store_all :
    (s : RuntimeState) (run_id : String) (es : List Stored)
    → (store_all s run_id es).limits ≡ s.limits
unfolding store_all store_run_event
limits-store_all s run_id [] = refl
limits-store_all s run_id (e ∷ es) =
    limits-store_all (store_run_event s run_id e.event_type e.payload e.now e.event_id).0 run_id es

store_all-HasHistory :
    (s : RuntimeState) (run_id : String) (xs : List RunEvent) (es : List Stored)
    → 0 < s.limits.max_events_per_run
    → HasHistory s run_id xs
    → HasHistory
        (store_all s run_id es)
        run_id
        (xs ++ full_history s.limits.max_event_payload_bytes run_id (length xs) es)
unfolding store_all store_run_event
store_all-HasHistory s run_id xs [] pos h = rw append-nil h
store_all-HasHistory s run_id xs (e ∷ es) pos h =
    let b = s.limits.max_event_payload_bytes in
    let row = row_of b run_id (length xs + 1) e in
    subst
      (HasHistory
        (store_all (store_run_event s run_id e.event_type e.payload e.now e.event_id).0 run_id es)
        run_id)
      (history_cons b run_id xs e es)
      (store_all-HasHistory (store_run_event s run_id e.event_type e.payload e.now e.event_id).0
        run_id (xs ++ row ∷ []) es pos (store-HasHistory s run_id xs e pos h))

-- With a positive limit, events stored for a run that has none yet are read back as the end of its full history: the last
-- `max_events_per_run` of them, in order, numbered from 1 without gaps.
pub list_run_events-store_all :
    (s : RuntimeState) (run_id : String) (es : List Stored)
    → 0 < s.limits.max_events_per_run
    → Dict.get s.run_events run_id ≡ none
    → Dict.get s.run_event_seq run_id ≡ none
    → list_run_events (store_all s run_id es) run_id ≡ (
        let history = full_history s.limits.max_event_payload_bytes run_id 0 es in
        drop (length history - s.limits.max_events_per_run) history)
unfolding list_run_events
list_run_events-store_all s run_id es pos no_events no_seq =
    rw (limits-store_all s run_id es) at ((store_all-HasHistory s run_id [] es pos fresh).stored)
  where
    fresh : HasHistory s run_id []
    fresh = record { counted = rw no_seq; stored = rw no_events (ground arith) }

-- Storing an event for one run leaves the stored events of any other run alone.
list_run_events-store_ne :
    (s : RuntimeState) (run_id other : String) (e : Stored)
    → run_id ≢ other
    → list_run_events (store_run_event s run_id e.event_type e.payload e.now e.event_id).0 other
      ≡ list_run_events s other
unfolding list_run_events store_run_event
list_run_events-store_ne s run_id other e ne =
    rw (get-put {0} s.run_events run_id other, eq_false run_id other ne)
