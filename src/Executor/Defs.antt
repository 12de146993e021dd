-- ===== src/Executor/Defs.antt =====
-- backend/app/executor_manager.py: the state of `ExecutorManager`. A session object is known by its
-- daemon id: an event is handled while its session is registered.
use pocage.Prelude.{
  ℕ, ◌+◌, String, Bool, false, not, Option, none, some, List, [], ◌∷◌, filter, ◌==◌, leb, is_some,
  get_or, if◌then◌else◌,
}
use pocage.Text.{strip, is_nonempty}
use pocage.Dict
use pocage.Dict.{Dict}
use pocage.Json.Defs.{Value, Fields, nat, str, obj, to_fields}
use pocage.Waiters.{Waiters, failed, settle_first}
use pocage.Executor.Answers.{Page, SyncResult, SessionPointer}
use pocage.Events.Broker.{EventBroker, publish}
use pocage.Rows.{RunEvent}
use pocage.Runtime.State.{RuntimeState}
use pocage.Runtime.Runs.{mark_run_failed, mark_run_executor_disconnected}
use pocage.Runtime.RunEvents.{store_run_event}

pub record ExecutorSession : Type 0 where
  pub daemon_id : String
  pub name : String
  pub agent : String
  pub hostname : Option String
  pub workspace_roots : List String
  pub connected_at : String
  pub machine_id : Option String
  pub agent_instance_id : Option String
  pub busy_run_id : Option String

-- The session pointers are the rows of the database by agent instance and session; without a session
-- factory there are none.
pub record ExecutorManager : Type 0 where
  pub runtime : RuntimeState
  pub broker : EventBroker
  pub daemons : Dict ExecutorSession
  pub run_stream_bytes : Dict ℕ
  pub context_search_waiters : Waiters (List Value)
  pub session_create_waiters : Waiters Fields
  pub session_list_waiters : Waiters Page
  pub session_sync_waiters : Waiters SyncResult
  pub session_pointers : Option (Dict (Dict SessionPointer))
  pub max_session_update_bytes : ℕ
  pub max_run_stream_bytes : ℕ
  pub max_session_sync_bytes : ℕ

-- what `utc_now` and `new_id` return at a step
pub record Stamp : Type 0 where
  pub now : String
  pub event_id : String

-- a stored event as the dict that is published
unfoldable pub event_value : RunEvent → Value
event_value row = obj (
    to_fields (
      ("event_id", str row.event_id)
      ∷ ("run_id", str row.run_id)
      ∷ ("seq", nat row.seq)
      ∷ ("event_type", str row.event_type)
      ∷ ("payload", obj row.payload)
      ∷ ("created_at", str row.created_at)
      ∷ []))

-- `store_run_event` and the `publish` of its row
unfoldable pub store_and_publish :
    ExecutorManager → String → String → Fields → Stamp → ExecutorManager
store_and_publish m run_id event_type payload stamp =
    let (runtime', row) =
      store_run_event m.runtime run_id event_type payload stamp.now stamp.event_id in
    record m {
      runtime = runtime';
      broker =
          publish m.broker run_id
            (record { event_type = row.event_type; payload = event_value row });
    }

unfoldable pub error_payload : (run_id error_code error_message : String) → Fields
error_payload run_id error_code error_message = to_fields (
    ("run_id", str run_id)
    ∷ ("error_code", str error_code)
    ∷ ("error_message", str error_message)
    ∷ [])

unfoldable pub clear_run_stream_tracking : ExecutorManager → String → ExecutorManager
clear_run_stream_tracking m run_id = record m {
  run_stream_bytes = Dict.pop m.run_stream_bytes run_id;
}

-- `_record_run_stream_bytes`: the new state and the total
unfoldable pub record_run_stream_bytes : ExecutorManager → String → Option ℕ → ExecutorManager × ℕ
record_run_stream_bytes m run_id raw_message_bytes =
    let seen = get_or (Dict.get m.run_stream_bytes run_id) 0 in
    let bytes = get_or raw_message_bytes 0 in
    if leb bytes 0 then (m, seen) else (
      record m { run_stream_bytes = Dict.put m.run_stream_bytes run_id (seen + bytes) },
      seen + bytes,
    )

abbrev pub is_idle : ExecutorSession → Bool
is_idle session = not (is_some session.busy_run_id)

-- session.busy_run_id = …, of the session that is registered under an id
unfoldable pub set_busy : Dict ExecutorSession → String → Option String → Dict ExecutorSession
set_busy [] daemon_id busy = []
set_busy ((id, session) ∷ rest) daemon_id busy =
    let others = set_busy rest daemon_id busy in
    if id == daemon_id
    then (id, record session { busy_run_id = busy }) ∷ others
    else (id, session) ∷ others

abbrev is_busy_with : String → ExecutorSession → Bool
is_busy_with run_id session = elim session.busy_run_id [ none ↦ false | some id ↦ id == run_id ]

-- `if session.busy_run_id == run_id: session.busy_run_id = None`
unfoldable pub release : ExecutorManager → String → String → ExecutorManager
release m daemon_id run_id = elim (Dict.get m.daemons daemon_id) [
  | none ↦ m
  | some session ↦
      if is_busy_with run_id session
      then record m { daemons = set_busy m.daemons daemon_id none }
      else m
]

-- `register` up to its `dispatch_pending`; `none` is the ValueError for an id that is connected
unfoldable pub register : ExecutorManager → ExecutorSession → Option ExecutorManager
register m session =
    if Dict.has m.daemons session.daemon_id
    then none
    else some (record m { daemons = Dict.put m.daemons session.daemon_id session })

-- `_fail_context_search_waiters` and the like, one after the other
unfoldable pub fail_waiters : ExecutorManager → (daemon_id error_message : String) → ExecutorManager
fail_waiters m daemon_id error_message = record m {
  context_search_waiters = settle_first m.context_search_waiters daemon_id (failed error_message);
  session_create_waiters = settle_first m.session_create_waiters daemon_id (failed error_message);
  session_list_waiters = settle_first m.session_list_waiters daemon_id (failed error_message);
  session_sync_waiters = settle_first m.session_sync_waiters daemon_id (failed error_message);
}

-- the session that `register` makes from a `DaemonHello`
unfoldable pub new_session :
    (daemon_id name agent : String)
    → Option String
    → List String
    → (connected_at : String) → (machine_id agent_instance_id : Option String) → ExecutorSession
new_session daemon_id name agent hostname workspace_roots connected_at machine_id
      agent_instance_id =
    record {
      daemon_id = strip daemon_id;
      name = strip name;
      agent = agent;
      hostname = hostname;
      workspace_roots = filter (λ root. is_nonempty (strip root)) workspace_roots;
      connected_at = connected_at;
      machine_id = machine_id;
      agent_instance_id = agent_instance_id;
      busy_run_id = none;
    }

module _ (instant : String → ℕ) where
  -- `_mark_run_protocol_failed`
  unfoldable pub mark_run_protocol_failed :
      ExecutorManager
      → (daemon_id run_id error_code error_message : String) → Stamp
      → ExecutorManager
  mark_run_protocol_failed m daemon_id run_id error_code error_message stamp =
      let m1 = record m {
        runtime = (mark_run_failed instant m.runtime run_id error_code error_message stamp.now).0;
      } in
      let m2 =
        store_and_publish m1 run_id "run.error" (error_payload run_id error_code error_message)
          stamp in
      release (clear_run_stream_tracking m2 run_id) daemon_id run_id

  -- what `unregister` does for the run that the daemon was busy with
  unfoldable pub disconnect_run : ExecutorManager → Option String → Stamp → ExecutorManager
  disconnect_run m none stamp = m
  disconnect_run m (some run_id) stamp =
      let m1 = record m {
        runtime = (mark_run_executor_disconnected instant m.runtime run_id stamp.now).0;
      } in
      clear_run_stream_tracking
        (store_and_publish m1 run_id "run.error"
          (error_payload run_id "executor_disconnected" "Daemon disconnected while run was active")
          stamp)
        run_id

  -- `unregister`, but for the status of the agent in the database
  unfoldable pub unregister : ExecutorManager → String → Stamp → ExecutorManager
  unregister m daemon_id stamp =
      let m' =
        fail_waiters (record m { daemons = Dict.pop m.daemons daemon_id }) daemon_id
          "daemon_disconnected" in
      elim (Dict.get m.daemons daemon_id) [
        | none ↦ m'
        | some session ↦ disconnect_run m' session.busy_run_id stamp
      ]
