-- ===== src/Executor/Listing.antt =====
-- backend/app/executor_manager.py: `list_remote_sessions`, and what is built on it. What a daemon answers
-- is an argument: `page` by the round of the loop and the cursor, `lists` by the daemon. `none` is an
-- exception.
use pocage.Prelude.{
  ℕ, zero, suc, String, Bool, Option, none, some, List, [], ◌∷◌, ◌++◌, leb, length, one_of, any,
  get_or, if◌then◌else◌,
}
use pocage.Text.{is_nonempty}
use pocage.Dict
use pocage.Dict.{Dict}
use pocage.Json.Defs.{Fields}
use pocage.Json.Access.{get, is_text}
use pocage.Runtime.State.{Session}
use pocage.Runtime.Sessions.{
  SessionUpsert, upsert_session, replace_daemon_sessions, get_session, list_sessions,
}
use pocage.Executor.Answers.{Page, SyncResult}
use pocage.Executor.Defs.{ExecutorManager}
use pocage.Executor.Requests.{get_daemon_session}

-- what the loop comes to; it may still be under way
pub data Listing : Type 0 where
  listed : List Fields → Listing
  raised : Listing
  under_way : Listing

-- the cursor with which the loop goes on
unfoldable pub next_cursor : Page → (seen_cursors : List String) → Option String
next_cursor page seen_cursors = elim page.next_cursor [
  | none ↦ none
  | some cursor ↦
      if is_nonempty cursor
      then (if one_of cursor seen_cursors then none else some cursor)
      else none
]

module _ (page : ℕ → Option String → Option Page) where
  -- the loop from a round on, for as many rounds as the fuel
  unfoldable pub list_loop :
      (fuel round : ℕ)
      → (cursor : Option String) → (seen_cursors : List String) → List Fields
      → Listing
  unfolding next_cursor
  list_loop zero round cursor seen_cursors items = under_way
  list_loop (suc fuel) round cursor seen_cursors items = elim (page round cursor) [
    | none ↦ raised
    | some answer ↦ elim (next_cursor answer seen_cursors) [
      | none ↦ listed (items ++ answer.items)
      | some next ↦
          (let rest =
              list_loop fuel (suc round) (some next) (next ∷ seen_cursors)
                (items ++ answer.items) in
            if leb 500 (length (items ++ answer.items))
            then listed (items ++ answer.items)
            else rest)
    ]
  ]

  unfoldable pub list_remote_sessions : (rounds : ℕ) → Listing
  list_remote_sessions rounds = list_loop rounds 0 none [] []

-- the instance of a daemon that may have left meanwhile
abbrev instance_now : ExecutorManager → String → Option String
instance_now m daemon_id = elim (get_daemon_session m daemon_id) [
  | none ↦ none
  | some session ↦ session.agent_instance_id
]

unfoldable pub replace_from :
    ExecutorManager → (now daemon_id : String) → List Fields → ExecutorManager
replace_from m now daemon_id items = record m {
  runtime = replace_daemon_sessions m.runtime daemon_id items (instance_now m daemon_id) now;
}

-- the daemons that `sync_remote_sessions` asks
unfoldable pub sync_targets : ExecutorManager → Option String → List String
sync_targets m none = Dict.keys m.daemons
sync_targets m (some daemon_id) =
    if is_nonempty daemon_id then daemon_id ∷ [] else Dict.keys m.daemons

module _ (lists : String → Option (List Fields)) (now : String) where
  -- the loop of `sync_remote_sessions` over the results
  unfoldable pub sync_results : ExecutorManager → List String → ExecutorManager
  unfolding replace_from
  sync_results m [] = m
  sync_results m (daemon_id ∷ daemon_ids) = elim (lists daemon_id) [
    | none ↦ sync_results m daemon_ids
    | some items ↦ sync_results (replace_from m now daemon_id items) daemon_ids
  ]

  unfoldable pub sync_remote_sessions : ExecutorManager → Option String → ExecutorManager
  unfolding sync_results
  sync_remote_sessions m daemon_id = sync_results m (sync_targets m daemon_id)

  -- `list_sessions` of the executor manager
  unfoldable pub synced_sessions :
      ExecutorManager
      → (limit : ℕ) → (cursor : Option String) → (allowed : Option (List String))
      → ExecutorManager × (List Session × Option String)
  synced_sessions m limit cursor allowed =
      let m' = sync_remote_sessions m none in (m', list_sessions m'.runtime limit cursor allowed)

  abbrev names_session : String → Fields → Bool
  names_session session_id item = is_text (get item "session_id") session_id

  -- the loop of `resolve_session` over the daemons
  unfoldable pub search_daemons :
      ExecutorManager → (session_id : String) → List String → ExecutorManager × Option Session
  unfolding replace_from
  search_daemons m session_id [] = (m, none)
  search_daemons m session_id (daemon_id ∷ daemon_ids) = elim (lists daemon_id) [
    | none ↦ search_daemons m session_id daemon_ids
    | some items ↦
        (let m' = replace_from m now daemon_id items in
          let rest = search_daemons m' session_id daemon_ids in
          if any (names_session session_id) items
          then elim (get_session m'.runtime session_id) [
            | none ↦ rest
            | some session ↦ (m', some session)
          ]
          else rest)
  ]

  abbrev connected_session : ExecutorManager → Option Session → Option Session
  connected_session m none = none
  connected_session m (some session) =
      if is_nonempty session.daemon_id
      then (if Dict.has m.daemons session.daemon_id then some session else none)
      else none

  -- `resolve_session`; no session is its LookupError
  unfoldable pub resolve_session :
      ExecutorManager → (session_id : String) → ExecutorManager × Option Session
  unfolding search_daemons
  resolve_session m session_id = elim (connected_session m (get_session m.runtime session_id)) [
    | some session ↦ (m, some session)
    | none ↦ search_daemons m session_id (Dict.keys m.daemons)
  ]

  -- the row that `load_remote_session` writes
  unfoldable pub loaded_row : Session → SyncResult → SessionUpsert
  loaded_row session result = record {
    session_id = session.id;
    daemon_id = session.daemon_id;
    agent_instance_id = session.agent_instance_id;
    title = get_or result.title session.title;
    cwd = session.cwd;
    updated_at = get_or result.updated_at session.updated_at;
    created_at = some session.created_at;
    mcp_servers = some session.mcp_servers;
    executor_id = none;
    status = none;
  }

  -- `load_remote_session`, where `syncs` is what `sync_remote_session` comes to
  unfoldable pub load_remote_session :
      (syncs : Session → Option SyncResult)
      → ExecutorManager
      → (session_id : String) → ExecutorManager × Option (Session × List Fields)
  load_remote_session syncs m session_id =
      let (m', resolved) = resolve_session m session_id in
      elim resolved [
        | none ↦ (m', none)
        | some session ↦
            if is_nonempty session.daemon_id
            then elim (syncs session) [
              | none ↦ (m', none)
              | some result ↦
                  (let (runtime', row) =
                      upsert_session m'.runtime (loaded_row session result) now in
                    (record m' { runtime = runtime' }, some (row, result.session_updates)))
            ]
            else (m', none)
      ]
