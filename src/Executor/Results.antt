-- ===== src/Executor/Results.antt =====
-- backend/app/executor_manager.py: `handle_executor_event` for the answers to requests. An exception
-- for a row that breaks the table of pointers leaves the waiter out of the table and not done.
use pocage.Prelude.{
  String, Bool, true, false, not, ◌&&◌, Option, none, some, List, map, ltb, if◌then◌else◌,
}
use pocage.Text.{is_nonempty}
use pocage.Dict
use pocage.Dict.{Dict}
use pocage.Json.Defs.{Value, Fields}
use pocage.Json.Access.{get, stripped}
use pocage.Json.Size.{json_size}
use pocage.Waiters.{
  Future, waiting, done_with, failed, Key, Waiters, lookup, pop_waiter, settle_key,
}
use pocage.Waiters.Evolves.{is_done}
use pocage.Executor.Answers.{
  RemoteSessionItem, item_fields, SessionCreateResultPayload, SessionListResultPayload,
  SessionSyncResultPayload, ContextSearchResultPayload, Page, SyncResult, SessionPointer,
}
use pocage.Executor.Defs.{ExecutorManager}
use pocage.Executor.Pointers.{upsert_session_pointer, replace_session_pointers}

-- how the handling of an answer ends: it returns, or raises for a payload or a row that is not valid
pub data Handling : Type 0 where
  handled_answer raises_error : Handling

abbrev pub is_waiting {ℓ} : {A : Type ℓ} → Waiters A → Key → Bool
is_waiting w key = elim (lookup w key) [ none ↦ false | some n ↦ not (is_done (w.futures n)) ]

-- the message of an answer that tells an error
abbrev error_of : Option String → Option String
error_of none = none
error_of (some message) = if is_nonempty message then some message else none

abbrev or_failed {ℓ} : {A : Type ℓ} → Option String → Future A → Future A
or_failed none outcome = outcome
or_failed (some message) outcome = failed message

-- the agent instance of the daemon, where there is one
unfoldable pub instance_of : ExecutorManager → String → Option String
instance_of m daemon_id = elim (Dict.get m.daemons daemon_id) [
  | none ↦ none
  | some session ↦ error_of session.agent_instance_id
]

unfoldable pub create_outcome : SessionCreateResultPayload → Future Fields
create_outcome event = or_failed (error_of event.error_message) (elim event.session [
  | none ↦ failed "missing session payload"
  | some item ↦ done_with (item_fields item)
])

unfoldable pub list_outcome : SessionListResultPayload → Future Page
list_outcome event =
    or_failed (error_of event.error_message)
      (done_with (record { items = map item_fields event.items; next_cursor = event.next_cursor }))

unfoldable pub sync_outcome : SessionSyncResultPayload → Future SyncResult
sync_outcome event = or_failed (error_of event.error_message) (
    done_with (record {
      session_id = event.session_id;
      title = event.title;
      updated_at = event.updated_at;
      session_updates = event.session_updates;
    }))

unfoldable pub search_outcome : ContextSearchResultPayload → Future (List Value)
search_outcome event = or_failed (error_of event.error_message) (done_with event.items)

abbrev pub succeeded {ℓ} : {A : Type ℓ} → Future A → Bool
succeeded waiting = false
succeeded (done_with a) = true
succeeded (failed message) = false

unfoldable pub on_search_result :
    ExecutorManager → String → ContextSearchResultPayload → ExecutorManager × Handling
on_search_result m daemon_id event = (
  record m {
    context_search_waiters =
        settle_key m.context_search_waiters (daemon_id, event.request_id) (search_outcome event);
  },
  handled_answer,
)

module _ (hash_secret : String → String) (seen_at : Option String → String) where
  abbrev pub pointer_of_created :
      ExecutorManager → Option String → Option RemoteSessionItem → ExecutorManager
  pointer_of_created m (some agent_instance_id) (some item) =
      upsert_session_pointer hash_secret seen_at m agent_instance_id item.session_id
        (some item.title) (some item.cwd) "idle" (some item.updated_at)
  pointer_of_created m _ _ = m

  unfoldable pub on_create_result :
      ExecutorManager → String → SessionCreateResultPayload → ExecutorManager × Handling
  on_create_result m daemon_id event =
      let key : Key = (daemon_id, event.request_id) in
      let outcome = create_outcome event in
      let m' = record m {
        session_create_waiters = settle_key m.session_create_waiters key outcome;
      } in
      (
        if is_waiting m.session_create_waiters key && succeeded outcome
            then pointer_of_created m' (instance_of m daemon_id) event.session
            else m',
        handled_answer,
      )

  abbrev pub pointers_of_page :
      Option (Dict (Dict SessionPointer))
      → Option String
      → List RemoteSessionItem
      → Option (Option (Dict (Dict SessionPointer)))
  pointers_of_page pointers none items = some pointers
  pointers_of_page pointers (some agent_instance_id) items =
      replace_session_pointers hash_secret seen_at pointers agent_instance_id items

  unfoldable pub on_list_result :
      ExecutorManager → String → SessionListResultPayload → ExecutorManager × Handling
  on_list_result m daemon_id event =
      let key : Key = (daemon_id, event.request_id) in
      let outcome = list_outcome event in
      let settled_waiters = settle_key m.session_list_waiters key outcome in
      if is_waiting m.session_list_waiters key && succeeded outcome
      then elim (pointers_of_page m.session_pointers (instance_of m daemon_id) event.items) [
        | none ↦ (
          record m { session_list_waiters = pop_waiter m.session_list_waiters key },
          raises_error,
        )
        | some pointers ↦ (
          record m { session_list_waiters = settled_waiters; session_pointers = pointers },
          handled_answer,
        )
      ]
      else (record m { session_list_waiters = settled_waiters }, handled_answer)

  abbrev pub pointer_of_synced :
      ExecutorManager → Option String → SessionSyncResultPayload → ExecutorManager
  pointer_of_synced m none event = m
  pointer_of_synced m (some agent_instance_id) event =
      upsert_session_pointer hash_secret seen_at m agent_instance_id event.session_id event.title
        none "idle" event.updated_at

  unfoldable pub store_synced :
      ExecutorManager → String → Option SessionSyncResultPayload → ExecutorManager × Handling
  store_synced m daemon_id none = (m, raises_error)
  store_synced m daemon_id (some event) =
      let key : Key = (daemon_id, event.request_id) in
      let outcome = sync_outcome event in
      let m' = record m { session_sync_waiters = settle_key m.session_sync_waiters key outcome } in
      (
        if is_waiting m.session_sync_waiters key && succeeded outcome
            then pointer_of_synced m' (instance_of m daemon_id) event
            else m',
        handled_answer,
      )

  -- The size of the updates is looked at before the message is read.
  unfoldable pub on_sync_result :
      ExecutorManager
      → String
      → Fields
      → Option SessionSyncResultPayload
      → ExecutorManager × Handling
  on_sync_result m daemon_id payload event =
      if ltb m.max_session_sync_bytes (json_size (get payload "session_updates"))
      then elim (stripped (get payload "request_id")) [
        | none ↦ (m, raises_error)
        | some request_id ↦ (
          record m {
            session_sync_waiters =
                settle_key m.session_sync_waiters (daemon_id, request_id)
                  (failed "session sync payload exceeded max size");
          },
          handled_answer,
        )
      ]
      else store_synced m daemon_id event
