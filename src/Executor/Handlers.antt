-- ===== src/Executor/Handlers.antt =====
-- backend/app/executor_manager.py: `handle_executor_event`, and its branches for the messages about runs. `models`
-- stands for the validation by the pydantic models of models.py, and `text_of` for `str`.
use pocage.Prelude.{
  ℕ, String, Bool, false, Option, none, some, List, [], ◌∷◌, ◌==◌, ltb, if◌then◌else◌,
}
use pocage.Text.{concat, strip, or_else}
use pocage.Json.Defs.{Value, Fields, null, bool, nat, number, str, arr, obj, to_fields, to_items}
use pocage.Json.Access.{get, as_str, stripped}
use pocage.Json.Size.{json_size}
use pocage.Json.Dump.{show}
use pocage.Rows.{PermissionRequest}
use pocage.Runtime.Runs.{mark_run_started, mark_run_completed, mark_run_failed}
use pocage.Runtime.Permissions.{create_permission_request}
use pocage.Executor.Defs.{
  ExecutorManager, Stamp, store_and_publish, error_payload, clear_run_stream_tracking,
  record_run_stream_bytes, release, mark_run_protocol_failed,
}
use pocage.Executor.Answers.{
  SessionCreateResultPayload, SessionListResultPayload, SessionSyncResultPayload,
  ContextSearchResultPayload,
}
use pocage.Executor.Results.{
  Handling, handled_answer, raises_error, on_search_result, on_create_result, on_list_result,
  on_sync_result,
}
use pocage.Executor.Dispatch.{dispatch_pending}

pub record RunAcceptedEvent : Type 0 where
  pub run_id : String
  pub job_id : String
  pub session_id : String

pub record RunSessionUpdateEvent : Type 0 where
  pub run_id : String
  pub update : Fields

pub record RunPermissionRequestedEvent : Type 0 where
  pub run_id : String
  pub session_id : String
  pub approval_id : String
  pub tool_call : Fields
  pub options : List Value

pub record Models : Type 0 where
  pub accepted : Fields → Option RunAcceptedEvent
  pub session_update : Fields → Option RunSessionUpdateEvent
  pub permission_requested : Fields → Option RunPermissionRequestedEvent
  pub heartbeat : Fields → Bool
  pub create_result : Fields → Option SessionCreateResultPayload
  pub list_result : Fields → Option SessionListResultPayload
  pub sync_result : Fields → Option SessionSyncResultPayload
  pub search_result : Fields → Option ContextSearchResultPayload

-- how a call ends: it returns, it raises `DaemonProtocolViolation`, it raises for a payload that is not valid, or its
-- dispatch is not done
pub data Outcome : Type 0 where
  handled invalid unfinished : Outcome
  protocol_violation : String → Outcome

abbrev event_is : Fields → String → Bool
event_is payload event_type = elim (as_str (get payload "type")) [
  | none ↦ false
  | some t ↦ t == event_type
]

unfoldable pub accepted_payload : RunAcceptedEvent → Fields
accepted_payload event = to_fields (
    ("run_id", str event.run_id)
    ∷ ("session_id", str event.session_id)
    ∷ ("job_id", str event.job_id)
    ∷ [])

unfoldable pub requested_payload : String → PermissionRequest → Fields
requested_payload run_id request = to_fields (
    ("run_id", str run_id)
    ∷ ("approval_id", str request.approval_id)
    ∷ ("session_id", str request.session_id)
    ∷ ("status", str "pending")
    ∷ ("tool_call", obj request.tool_call)
    ∷ ("options", arr (to_items request.options))
    ∷ ("created_at", str request.created_at)
    ∷ [])

-- `_coerce_required_str`; `none` is its ValueError
unfoldable pub coerce_required_str : Value → Option String
coerce_required_str value = stripped value

module _ (text_of : Value → String) where
  -- `_coerce_non_empty_str`
  unfoldable pub coerce_non_empty_str : Value → (fallback : String) → String
  coerce_non_empty_str (str s) fallback = or_else (strip s) fallback
  coerce_non_empty_str null fallback = fallback
  coerce_non_empty_str (bool b) fallback = or_else (strip (text_of (bool b))) fallback
  coerce_non_empty_str (nat n) fallback = or_else (strip (text_of (nat n))) fallback
  coerce_non_empty_str (number t) fallback = or_else (strip (text_of (number t))) fallback
  coerce_non_empty_str (arr vs) fallback = or_else (strip (text_of (arr vs))) fallback
  coerce_non_empty_str (obj fs) fallback = or_else (strip (text_of (obj fs))) fallback

unfoldable pub on_accepted :
    ExecutorManager → String → Option RunAcceptedEvent → Stamp → ExecutorManager × Outcome
on_accepted m daemon_id none stamp = (m, invalid)
on_accepted m daemon_id (some event) stamp = (
  store_and_publish
      (record m {
        runtime =
            (mark_run_started m.runtime event.run_id (some daemon_id) event.session_id stamp.now).0;
      })
      event.run_id "run.accepted" (accepted_payload event) stamp,
  handled,
)

unfoldable pub store_update :
    ExecutorManager → Option RunSessionUpdateEvent → Stamp → ExecutorManager × Outcome
store_update m none stamp = (m, invalid)
store_update m (some event) stamp = (
  store_and_publish m event.run_id "run.session_update"
      (to_fields (("run_id", str event.run_id) ∷ ("update", obj event.update) ∷ [])) stamp,
  handled,
)

unfoldable pub on_permission_requested :
    ExecutorManager
    → String
    → Option RunPermissionRequestedEvent
    → Stamp
    → ExecutorManager × Outcome
on_permission_requested m daemon_id none stamp = (m, invalid)
on_permission_requested m daemon_id (some event) stamp =
    let (runtime', request) =
      create_permission_request m.runtime event.run_id event.approval_id (some daemon_id)
        event.session_id event.tool_call event.options stamp.now in
    (
      store_and_publish (record m { runtime = runtime' }) event.run_id "run.permission.requested"
          (requested_payload event.run_id request) stamp,
      handled,
    )

abbrev outcome_of : ExecutorManager × Handling → ExecutorManager × Outcome
outcome_of (m, handled_answer) = (m, handled)
outcome_of (m, raises_error) = (m, invalid)

abbrev answered {ℓ} :
    {A : Type ℓ}
    → ExecutorManager
    → Option A
    → (A → ExecutorManager × Handling)
    → ExecutorManager × Outcome
answered m none handler = (m, invalid)
answered m (some event) handler = outcome_of (handler event)

module _ (instant : String → ℕ) (sends : (daemon_id run_id : String) → Bool)
    (stamp_of : String → Stamp) (models : Models) (text_of : Value → String)
    (hash_secret : String → String) (seen_at : Option String → String) where
  -- the `dispatch_pending` at the end of a run
  unfoldable pub then_dispatch : ExecutorManager → Stamp → ExecutorManager × Outcome
  then_dispatch m stamp = elim (dispatch_pending instant sends stamp_of m stamp.now) [
    | none ↦ (m, unfinished)
    | some m' ↦ (m', handled)
  ]

  -- what both ways to end a run do at last
  unfoldable pub close_run :
      ExecutorManager → (daemon_id run_id : String) → Stamp → ExecutorManager × Outcome
  close_run m daemon_id run_id stamp =
      then_dispatch (release (clear_run_stream_tracking m run_id) daemon_id run_id) stamp

  unfoldable pub complete_run :
      ExecutorManager
      → (daemon_id run_id stop_reason session_id : String) → Stamp
      → ExecutorManager × Outcome
  complete_run m daemon_id run_id stop_reason session_id stamp =
      close_run
        (store_and_publish
          (record m {
            runtime = (mark_run_completed instant m.runtime run_id stop_reason stamp.now).0;
          })
          run_id "run.completed"
          (to_fields (
            ("run_id", str run_id)
            ∷ ("session_id", str session_id)
            ∷ ("stop_reason", str stop_reason)
            ∷ []))
          stamp)
        daemon_id run_id stamp

  unfoldable pub on_completed :
      ExecutorManager → String → Fields → Stamp → ExecutorManager × Outcome
  on_completed m daemon_id payload stamp = elim (coerce_required_str (get payload "run_id")) [
    | none ↦ (m, invalid)
    | some run_id ↦ elim (coerce_required_str (get payload "session_id")) [
      | none ↦ (m, invalid)
      | some session_id ↦
          complete_run m daemon_id run_id
            (coerce_non_empty_str text_of (get payload "stop_reason") "completed") session_id stamp
    ]
  ]

  unfoldable pub fail_run :
      ExecutorManager
      → (daemon_id run_id error_code error_message : String) → Stamp
      → ExecutorManager × Outcome
  fail_run m daemon_id run_id error_code error_message stamp =
      close_run
        (store_and_publish
          (record m {
            runtime =
                (mark_run_failed instant m.runtime run_id error_code error_message stamp.now).0;
          })
          run_id "run.error" (error_payload run_id error_code error_message) stamp)
        daemon_id run_id stamp

  unfoldable pub on_failed : ExecutorManager → String → Fields → Stamp → ExecutorManager × Outcome
  on_failed m daemon_id payload stamp = elim (coerce_required_str (get payload "run_id")) [
    | none ↦ (m, invalid)
    | some run_id ↦
        fail_run m daemon_id run_id
          (coerce_non_empty_str text_of (get payload "error_code") "daemon_failed")
          (coerce_non_empty_str text_of (get payload "error_message") "Daemon run failed") stamp
  ]

  -- a run that is failed for its messages
  unfoldable pub violate :
      ExecutorManager
      → (daemon_id run_id error_code error_message : String) → Stamp
      → ExecutorManager × Outcome
  violate m daemon_id run_id error_code error_message stamp = (
    mark_run_protocol_failed instant m daemon_id run_id error_code error_message stamp,
    protocol_violation error_message,
  )

  unfoldable pub on_session_update :
      ExecutorManager → String → Fields → Stamp → ExecutorManager × Outcome
  on_session_update m daemon_id payload stamp =
      if ltb m.max_session_update_bytes (json_size (get payload "update"))
      then elim (coerce_required_str (get payload "run_id")) [
        | none ↦ (m, invalid)
        | some run_id ↦
            violate m daemon_id run_id "session_update_too_large"
              (concat
                ("Session update exceeded " ∷ show m.max_session_update_bytes ∷ " bytes" ∷ []))
              stamp
      ]
      else store_update m (models.session_update payload) stamp

  -- the branches on `event_type` that are about runs
  unfoldable pub handle_run_event :
      ExecutorManager → String → Fields → Stamp → ExecutorManager × Outcome
  handle_run_event m daemon_id payload stamp =
      if event_is payload "run.accepted"
      then on_accepted m daemon_id (models.accepted payload) stamp
      else if event_is payload "run.session_update"
      then on_session_update m daemon_id payload stamp
      else if event_is payload "run.permission.requested"
      then on_permission_requested m daemon_id (models.permission_requested payload) stamp
      else if event_is payload "run.completed"
      then on_completed m daemon_id payload stamp
      else if event_is payload "run.failed"
      then on_failed m daemon_id payload stamp
      else (m, handled)

  -- the branches on `event_type`; what a heartbeat writes to the database is left out
  unfoldable pub handle_event :
      ExecutorManager → String → Fields → Stamp → ExecutorManager × Outcome
  handle_event m daemon_id payload stamp =
      if event_is payload "heartbeat"
      then (m, if models.heartbeat payload then handled else invalid)
      else if event_is payload "session.create.result"
      then answered m (models.create_result payload)
          (on_create_result hash_secret seen_at m daemon_id)
      else if event_is payload "session.list.result"
      then answered m (models.list_result payload) (on_list_result hash_secret seen_at m daemon_id)
      else if event_is payload "session.sync.result"
      then outcome_of
          (on_sync_result hash_secret seen_at m daemon_id payload (models.sync_result payload))
      else if event_is payload "context.search.result"
      then answered m (models.search_result payload) (on_search_result m daemon_id)
      else handle_run_event m daemon_id payload stamp

  -- `handle_executor_event`: the bytes of a run's messages are counted before the message is read
  unfoldable pub handle_executor_event :
      ExecutorManager → String → Fields → Option ℕ → Stamp → ExecutorManager × Outcome
  handle_executor_event m daemon_id payload raw_message_bytes stamp =
      elim (stripped (get payload "run_id")) [
        | none ↦ handle_event m daemon_id payload stamp
        | some run_id ↦
            (let (m', total_bytes) = record_run_stream_bytes m run_id raw_message_bytes in
              if ltb m.max_run_stream_bytes total_bytes
              then violate m' daemon_id run_id "run_stream_too_large"
                  (concat ("Run stream exceeded " ∷ show m.max_run_stream_bytes ∷ " bytes" ∷ []))
                  stamp
              else handle_event m' daemon_id payload stamp)
      ]
