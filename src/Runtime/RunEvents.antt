-- ===== src/Runtime/RunEvents.antt =====
-- backend/app/runtime_state.py: the stored events of a run.
use pocage.Prelude.{
  ℕ, ◌+◌, ◌-◌, String, List, [], ◌∷◌, ◌++◌, drop, length, ltb, get_or, if◌then◌else◌,
}
use pocage.Dict
use pocage.Dict.{Dict}
use pocage.Json.Defs.{Fields}
use pocage.Runtime.Payload.{normalized_event_payload}
use pocage.Runtime.State.{RunEvent, RuntimeState}

-- `_prune_run_events_locked` of one run's list
unfoldable pub prune_events : ℕ → List RunEvent → List RunEvent
prune_events max_events events =
    if ltb max_events (length events) then drop (length events - max_events) events else events

unfoldable pub store_run_event :
    RuntimeState → String → String → Fields → String → String → RuntimeState × RunEvent
store_run_event s run_id event_type payload now event_id =
    let seq = get_or (Dict.get s.run_event_seq run_id) 0 + 1 in
    let row : RunEvent = record {
      event_id = event_id;
      run_id = run_id;
      seq = seq;
      event_type = event_type;
      payload = normalized_event_payload s.limits.max_event_payload_bytes event_type payload;
      created_at = now;
    } in
    (
      record s {
        run_event_seq = Dict.put s.run_event_seq run_id seq;
        run_events = Dict.put s.run_events run_id (
            prune_events s.limits.max_events_per_run
              (get_or (Dict.get s.run_events run_id) [] ++ row ∷ []));
      },
      row,
    )

unfoldable pub list_run_events : RuntimeState → String → List RunEvent
list_run_events s run_id = get_or (Dict.get s.run_events run_id) []
