-- ===== src/Executor/Requests.antt =====
-- backend/app/executor_manager.py: the requests to a daemon that wait for its answer. A request ends
-- when it is answered, has failed or has run out of time; then its waiter leaves the table.
use pocage.Prelude.{String, Option, none, some, [], ◌∷◌, ◌==◌, Bool, false, if◌then◌else◌}
use pocage.Text.{strip, is_nonempty}
use pocage.Dict
use pocage.Dict.{Dict}
use pocage.Waiters.{open_waiter, pop_waiter}
use pocage.Executor.Defs.{ExecutorSession, ExecutorManager}

-- the four kinds of requests
pub data Kind : Type 0 where
  context_search session_create session_list session_sync : Kind

-- `_get_daemon_session`; `none` is its LookupError
unfoldable pub get_daemon_session : ExecutorManager → String → Option ExecutorSession
get_daemon_session m daemon_id = Dict.get m.daemons daemon_id

abbrev has_instance : Option String → String → Bool
has_instance none id = false
has_instance (some other) id = other == id

unfoldable pub first_with_instance : Dict ExecutorSession → String → Option ExecutorSession
first_with_instance [] id = none
first_with_instance ((daemon_id, session) ∷ rest) id =
    if has_instance session.agent_instance_id id then some session else first_with_instance rest id

-- `get_executor_for_agent_instance`
unfoldable pub get_executor_for_agent_instance : ExecutorManager → String → Option ExecutorSession
get_executor_for_agent_instance m agent_instance_id =
    let normalized = strip agent_instance_id in
    if is_nonempty normalized then first_with_instance m.daemons normalized else none

unfoldable pub open_request :
    ExecutorManager → Kind → (daemon_id request_id : String) → ExecutorManager
open_request m context_search daemon_id request_id = record m {
  context_search_waiters = (open_waiter m.context_search_waiters (daemon_id, request_id)).0;
}
open_request m session_create daemon_id request_id = record m {
  session_create_waiters = (open_waiter m.session_create_waiters (daemon_id, request_id)).0;
}
open_request m session_list daemon_id request_id = record m {
  session_list_waiters = (open_waiter m.session_list_waiters (daemon_id, request_id)).0;
}
open_request m session_sync daemon_id request_id = record m {
  session_sync_waiters = (open_waiter m.session_sync_waiters (daemon_id, request_id)).0;
}

-- the start of `search_context`, `create_remote_session`, `_list_remote_session_page` and
-- `_sync_remote_session_once`; `none` is the LookupError for a daemon that is not connected
unfoldable pub request_begins :
    ExecutorManager → Kind → (daemon_id request_id : String) → Option ExecutorManager
request_begins m kind daemon_id request_id = elim (get_daemon_session m daemon_id) [
  | none ↦ none
  | some session ↦ some (open_request m kind daemon_id request_id)
]

-- the `finally` of the same
unfoldable pub request_ends :
    ExecutorManager → Kind → (daemon_id request_id : String) → ExecutorManager
request_ends m context_search daemon_id request_id = record m {
  context_search_waiters = pop_waiter m.context_search_waiters (daemon_id, request_id);
}
request_ends m session_create daemon_id request_id = record m {
  session_create_waiters = pop_waiter m.session_create_waiters (daemon_id, request_id);
}
request_ends m session_list daemon_id request_id = record m {
  session_list_waiters = pop_waiter m.session_list_waiters (daemon_id, request_id);
}
request_ends m session_sync daemon_id request_id = record m {
  session_sync_waiters = pop_waiter m.session_sync_waiters (daemon_id, request_id);
}
