-- ===== src/Executor/Later.antt =====
-- backend/app/executor_manager.py: what the tables of waiters keep through each step.
use pocage.Prelude.{
  ℕ, String, ◌≡◌, refl, subst, Bool, true, false, ◌&&◌, Option, none, some, get_or, if◌then◌else◌,
  Option-cases, Bool-cases, inl, inr, ltb,
}
use pocage.Dict
use pocage.Dict.{Dict}
use pocage.Json.Defs.{Fields}
use pocage.Json.Access.{get, stripped}
use pocage.Json.Size.{json_size}
use pocage.Waiters.{Future, failed, Key, Waiters, settle_key}
use pocage.Waiters.Evolves.{
  Evolves, Evolves-refl, Evolves-trans, open_waiter-Evolves, pop_waiter-Evolves, settle_key-Evolves,
  settle_first-Evolves,
}
use pocage.Executor.Answers.{
  RemoteSessionItem, SessionCreateResultPayload, SessionListResultPayload, SessionSyncResultPayload,
  ContextSearchResultPayload, Page, SyncResult, SessionPointer,
}
use pocage.Executor.Defs.{
  ExecutorManager, Stamp, store_and_publish, clear_run_stream_tracking, fail_waiters,
  disconnect_run, unregister,
}
use pocage.Executor.Pointers.{upsert_session_pointer}
use pocage.Executor.Requests.{
  Kind, context_search, session_create, session_list, session_sync, open_request, request_begins,
  request_ends, get_daemon_session,
}
use pocage.Executor.Results.{
  pointer_of_created, pointer_of_synced, pointers_of_page, succeeded, create_outcome, sync_outcome,
  list_outcome, instance_of, is_waiting, on_search_result, on_create_result, on_list_result,
  store_synced, on_sync_result,
}

-- The tables of waiters of a later manager.
pub record Later (m m' : ExecutorManager) : Type 0 where
  pub search : Evolves m.context_search_waiters m'.context_search_waiters
  pub create : Evolves m.session_create_waiters m'.session_create_waiters
  pub list : Evolves m.session_list_waiters m'.session_list_waiters
  pub sync : Evolves m.session_sync_waiters m'.session_sync_waiters

pub Later-refl : (m : ExecutorManager) → Later m m
Later-refl m = record {
  search = Evolves-refl m.context_search_waiters;
  create = Evolves-refl m.session_create_waiters;
  list = Evolves-refl m.session_list_waiters;
  sync = Evolves-refl m.session_sync_waiters;
}

pub Later-trans : (m m' m'' : ExecutorManager) → Later m m' → Later m' m'' → Later m m''
Later-trans m m' m'' l k = record {
  search = Evolves-trans l.search k.search;
  create = Evolves-trans l.create k.create;
  list = Evolves-trans l.list k.list;
  sync = Evolves-trans l.sync k.sync;
}

pub same_waiters :
    (m m' : ExecutorManager)
    → m.context_search_waiters ≡ m'.context_search_waiters
    → m.session_create_waiters ≡ m'.session_create_waiters
    → m.session_list_waiters ≡ m'.session_list_waiters
    → m.session_sync_waiters ≡ m'.session_sync_waiters
    → Later m m'
same_waiters m m' p q r s = record {
  search = subst (Evolves m.context_search_waiters) p (Evolves-refl m.context_search_waiters);
  create = subst (Evolves m.session_create_waiters) q (Evolves-refl m.session_create_waiters);
  list = subst (Evolves m.session_list_waiters) r (Evolves-refl m.session_list_waiters);
  sync = subst (Evolves m.session_sync_waiters) s (Evolves-refl m.session_sync_waiters);
}

if-Later :
    (m a b : ExecutorManager) (c : Bool) → Later m a → Later m b → Later m (if c then a else b)
if-Later m a b true l k = l
if-Later m a b false l k = k

sync-settled :
    (m : ExecutorManager) (key : Key) (outcome : Future SyncResult)
    → Later m (record m { session_sync_waiters = settle_key m.session_sync_waiters key outcome })
sync-settled m key outcome = record {
  search = Evolves-refl m.context_search_waiters;
  create = Evolves-refl m.session_create_waiters;
  list = Evolves-refl m.session_list_waiters;
  sync = settle_key-Evolves m.session_sync_waiters key outcome;
}

list-Later :
    (m : ExecutorManager) (w : Waiters Page)
    → Evolves m.session_list_waiters w
    → (pointers : Option (Dict (Dict SessionPointer)))
    → Later m (record m { session_list_waiters = w; session_pointers = pointers })
list-Later m w e pointers = record {
  search = Evolves-refl m.context_search_waiters;
  create = Evolves-refl m.session_create_waiters;
  list = e;
  sync = Evolves-refl m.session_sync_waiters;
}

open_request-Later :
    (m : ExecutorManager) (kind : Kind) (d r : String) → Later m (open_request m kind d r)
unfolding open_request
open_request-Later m context_search d r = record {
  search = open_waiter-Evolves m.context_search_waiters (d, r);
  create = Evolves-refl m.session_create_waiters;
  list = Evolves-refl m.session_list_waiters;
  sync = Evolves-refl m.session_sync_waiters;
}
open_request-Later m session_create d r = record {
  search = Evolves-refl m.context_search_waiters;
  create = open_waiter-Evolves m.session_create_waiters (d, r);
  list = Evolves-refl m.session_list_waiters;
  sync = Evolves-refl m.session_sync_waiters;
}
open_request-Later m session_list d r = record {
  search = Evolves-refl m.context_search_waiters;
  create = Evolves-refl m.session_create_waiters;
  list = open_waiter-Evolves m.session_list_waiters (d, r);
  sync = Evolves-refl m.session_sync_waiters;
}
open_request-Later m session_sync d r = record {
  search = Evolves-refl m.context_search_waiters;
  create = Evolves-refl m.session_create_waiters;
  list = Evolves-refl m.session_list_waiters;
  sync = open_waiter-Evolves m.session_sync_waiters (d, r);
}

pub request_ends-Later :
    (m : ExecutorManager) (kind : Kind) (d r : String) → Later m (request_ends m kind d r)
unfolding request_ends
request_ends-Later m context_search d r = record {
  search = pop_waiter-Evolves m.context_search_waiters (d, r);
  create = Evolves-refl m.session_create_waiters;
  list = Evolves-refl m.session_list_waiters;
  sync = Evolves-refl m.session_sync_waiters;
}
request_ends-Later m session_create d r = record {
  search = Evolves-refl m.context_search_waiters;
  create = pop_waiter-Evolves m.session_create_waiters (d, r);
  list = Evolves-refl m.session_list_waiters;
  sync = Evolves-refl m.session_sync_waiters;
}
request_ends-Later m session_list d r = record {
  search = Evolves-refl m.context_search_waiters;
  create = Evolves-refl m.session_create_waiters;
  list = pop_waiter-Evolves m.session_list_waiters (d, r);
  sync = Evolves-refl m.session_sync_waiters;
}
request_ends-Later m session_sync d r = record {
  search = Evolves-refl m.context_search_waiters;
  create = Evolves-refl m.session_create_waiters;
  list = Evolves-refl m.session_list_waiters;
  sync = pop_waiter-Evolves m.session_sync_waiters (d, r);
}

pub fail_waiters-Later :
    (m : ExecutorManager) (d error_message : String) → Later m (fail_waiters m d error_message)
unfolding fail_waiters
fail_waiters-Later m d error_message = record {
  search = settle_first-Evolves m.context_search_waiters d (failed error_message);
  create = settle_first-Evolves m.session_create_waiters d (failed error_message);
  list = settle_first-Evolves m.session_list_waiters d (failed error_message);
  sync = settle_first-Evolves m.session_sync_waiters d (failed error_message);
}

pub request_begins-Later :
    (m : ExecutorManager) (kind : Kind) (d r : String)
    → Later m (get_or (request_begins m kind d r) m)
unfolding request_begins
request_begins-Later m kind d r = elim (Option-cases (get_daemon_session m d)) [
  | inl e ↦ rw (request_begins, e) (Later-refl m)
  | inr (session, e) ↦ rw (request_begins, e) (open_request-Later m kind d r)
]

-- Two managers with the same tables.
abbrev pub SameTables : ExecutorManager → ExecutorManager → Type 0
SameTables m m' =
    (m.context_search_waiters ≡ m'.context_search_waiters)
    × (m.session_create_waiters ≡ m'.session_create_waiters)
    × (m.session_list_waiters ≡ m'.session_list_waiters)
    × (m.session_sync_waiters ≡ m'.session_sync_waiters)

disconnect_run-SameTables :
    (instant : String → ℕ) (m : ExecutorManager) (busy : Option String) (stamp : Stamp)
    → SameTables m (disconnect_run instant m busy stamp)
unfolding disconnect_run store_and_publish clear_run_stream_tracking
disconnect_run-SameTables instant m none stamp = (refl, refl, refl, refl)
disconnect_run-SameTables instant m (some run_id) stamp = (refl, refl, refl, refl)

-- Of the tables of waiters, `unregister` does what `fail_waiters` does.
pub unregister-SameTables :
    (instant : String → ℕ) (m : ExecutorManager) (d : String) (stamp : Stamp)
    → SameTables (fail_waiters m d "daemon_disconnected") (unregister instant m d stamp)
unfolding unregister fail_waiters
unregister-SameTables instant m d stamp = elim (Option-cases (Dict.get m.daemons d)) [
  | inl e ↦ rw (unregister, e) (refl, refl, refl, refl)
  | inr (session, e) ↦
      rw (unregister, e) (disconnect_run-SameTables instant _ session.busy_run_id stamp)
]

module _ (hash_secret : String → String) (seen_at : Option String → String) where
  upsert-Later :
      (m : ExecutorManager) (agent id : String) (title cwd : Option String) (status : String)
      (updated_at : Option String)
      → Later m (upsert_session_pointer hash_secret seen_at m agent id title cwd status updated_at)
  unfolding upsert_session_pointer
  upsert-Later m agent id title cwd status updated_at = same_waiters m _ refl refl refl refl

  created-Later :
      (m : ExecutorManager) (agent : Option String) (item : Option RemoteSessionItem)
      → Later m (pointer_of_created hash_secret seen_at m agent item)
  created-Later m (some agent) (some item) =
      upsert-Later m agent item.session_id (some item.title) (some item.cwd) "idle"
        (some item.updated_at)
  created-Later m (some agent) none = Later-refl m
  created-Later m none item = Later-refl m

  synced-Later :
      (m : ExecutorManager) (agent : Option String) (event : SessionSyncResultPayload)
      → Later m (pointer_of_synced hash_secret seen_at m agent event)
  synced-Later m none event = Later-refl m
  synced-Later m (some agent) event =
      upsert-Later m agent event.session_id event.title none "idle" event.updated_at

  pub on_search_result-Later :
      (m : ExecutorManager) (d : String) (event : ContextSearchResultPayload)
      → Later m (on_search_result m d event).0
  unfolding on_search_result
  on_search_result-Later m d event = record {
    search = settle_key-Evolves m.context_search_waiters (d, event.request_id) _;
    create = Evolves-refl m.session_create_waiters;
    list = Evolves-refl m.session_list_waiters;
    sync = Evolves-refl m.session_sync_waiters;
  }

  pub on_create_result-Later :
      (m : ExecutorManager) (d : String) (event : SessionCreateResultPayload)
      → Later m (on_create_result hash_secret seen_at m d event).0
  unfolding on_create_result
  on_create_result-Later m d event =
      let key : Key = (d, event.request_id) in
      let m' : ExecutorManager = record m {
        session_create_waiters = settle_key m.session_create_waiters key (create_outcome event);
      } in
      let l : Later m m' = record {
        search = Evolves-refl m.context_search_waiters;
        create = settle_key-Evolves m.session_create_waiters key (create_outcome event);
        list = Evolves-refl m.session_list_waiters;
        sync = Evolves-refl m.session_sync_waiters;
      } in
      if-Later m _ _ _ (Later-trans m m' _ l (created-Later m' (instance_of m d) event.session)) l

  store_synced-Later :
      (m : ExecutorManager) (d : String) (event : Option SessionSyncResultPayload)
      → Later m (store_synced hash_secret seen_at m d event).0
  unfolding store_synced
  store_synced-Later m d none = Later-refl m
  store_synced-Later m d (some event) =
      let key : Key = (d, event.request_id) in
      let m' : ExecutorManager = record m {
        session_sync_waiters = settle_key m.session_sync_waiters key (sync_outcome event);
      } in
      let l : Later m m' = sync-settled m key (sync_outcome event) in
      if-Later m _ _ _ (Later-trans m m' _ l (synced-Later m' (instance_of m d) event)) l

  pub on_sync_result-Later :
      (m : ExecutorManager) (d : String) (payload : Fields)
      (event : Option SessionSyncResultPayload)
      → Later m (on_sync_result hash_secret seen_at m d payload event).0
  unfolding on_sync_result
  on_sync_result-Later m d payload event =
      elim (Bool-cases (ltb m.max_session_sync_bytes (json_size (get payload "session_updates")))) [
        | inl e ↦ elim (Option-cases (stripped (get payload "request_id"))) [
          | inl g ↦ rw (on_sync_result, e, g) (Later-refl m)
          | inr (request_id, g) ↦
              rw (on_sync_result, e, g)
                (sync-settled m (d, request_id) (failed "session sync payload exceeded max size"))
        ]
        | inr e ↦ rw (on_sync_result, e) (store_synced-Later m d event)
      ]

  pub on_list_result-Later :
      (m : ExecutorManager) (d : String) (event : SessionListResultPayload)
      → Later m (on_list_result hash_secret seen_at m d event).0
  unfolding on_list_result
  on_list_result-Later m d event =
      let key : Key = (d, event.request_id) in
      elim (Bool-cases (is_waiting m.session_list_waiters key && succeeded (list_outcome event))) [
        | inr e ↦
            rw (on_list_result, e)
              (list-Later m _ (settle_key-Evolves m.session_list_waiters key _) _)
        | inl e ↦
            elim (Option-cases (
              pointers_of_page hash_secret seen_at m.session_pointers (instance_of m d)
                event.items)) [
                  | inl g ↦
                      rw (on_list_result, e, g)
                        (list-Later m _ (pop_waiter-Evolves m.session_list_waiters key) _)
                  | inr (pointers, g) ↦
                      rw (on_list_result, e, g)
                        (list-Later m _ (settle_key-Evolves m.session_list_waiters key _) _)
                ]
      ]
