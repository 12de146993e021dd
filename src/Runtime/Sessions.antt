-- ===== src/Runtime/Sessions.antt =====
-- backend/app/runtime_state.py: the session index of `RuntimeState`. A Python set of ids is a list
-- without repetitions; the program never depends on its order.
use pocage.Prelude.{
  ℕ, String, Bool, true, false, not, Option, none, some, List, [], ◌∷◌, ◌++◌, filter, take, length,
  ltb, ◌==◌, one_of, sort_by, get_or, if◌then◌else◌,
}
use pocage.Text.{strip, is_nonempty, or_else}
use pocage.Dict
use pocage.Dict.{Dict}
use pocage.Json.Defs.{Value, Fields}
use pocage.Json.Access.{get, as_str, nonempty_str}
use pocage.Runtime.State.{Status, idle, Session, RuntimeState, text_le}
use pocage.Runtime.Runs.{session_has_local_run}

-- `_display_title`
unfoldable pub display_title : String → String
display_title title = or_else (strip title) "New session"

abbrev pub add_id : String → List String → List String
add_id id ids = if one_of id ids then ids else ids ++ id ∷ []

abbrev first_of_two {ℓ} : {A : Type ℓ} → Option A → Option A → Option A
first_of_two (some a) b = some a
first_of_two none b = b

abbrev field_of {ℓ} : {A : Type ℓ} → Option Session → (Session → A) → A → A
field_of none f d = d
field_of (some session) f d = f session

pub record SessionUpsert : Type 0 where
  pub session_id : String
  pub daemon_id : String
  pub agent_instance_id : Option String
  pub title : String
  pub cwd : String
  pub updated_at : String
  pub created_at : Option String
  pub mcp_servers : Option (List Value)
  pub executor_id : Option String
  pub status : Option Status

-- the row that `upsert_session` writes, from the row that is there
unfoldable pub upserted_row : Option Session → SessionUpsert → String → Session
upserted_row current u now = record {
  id = u.session_id;
  title = display_title u.title;
  cwd = u.cwd;
  agent_instance_id =
      first_of_two u.agent_instance_id
        (field_of current (λ session. session.agent_instance_id) none);
  daemon_id = u.daemon_id;
  status = get_or u.status (field_of current (λ session. session.status) idle);
  mcp_servers = get_or u.mcp_servers (field_of current (λ session. session.mcp_servers) []);
  remote_updated_at = u.updated_at;
  created_at =
      field_of current (λ session. session.created_at)
        (or_else (get_or u.created_at "") (or_else u.updated_at now));
  updated_at = or_else u.updated_at now;
  executor_id = first_of_two u.executor_id (field_of current (λ session. session.executor_id) none);
}

unfoldable pub upsert_session : RuntimeState → SessionUpsert → String → RuntimeState × Session
upsert_session s u now =
    let row = upserted_row (Dict.get s.sessions u.session_id) u now in
    (
      record s {
        sessions = Dict.put s.sessions u.session_id row;
        daemon_sessions =
            Dict.put s.daemon_sessions u.daemon_id
              (add_id u.session_id (get_or (Dict.get s.daemon_sessions u.daemon_id) []));
      },
      row,
    )

infixl 5 ◌>>=◌
abbrev ◌>>=◌ {ℓ κ} : {A : Type ℓ} {B : Type κ} → Option A → (A → Option B) → Option B
none >>= f = none
some a >>= f = f a

-- a session that the daemon lists, if it has its id, folder and time
unfoldable pub listed_session : String → Option String → Fields → Option SessionUpsert
listed_session daemon_id agent_instance_id item = do
  session_id ← nonempty_str (get item "session_id")
  cwd ← nonempty_str (get item "cwd")
  updated_at ← nonempty_str (get item "updated_at")
  some (record {
    session_id = session_id;
    daemon_id = daemon_id;
    agent_instance_id = agent_instance_id;
    title = get_or (as_str (get item "title")) "New session";
    cwd = cwd;
    updated_at = updated_at;
    created_at = none;
    mcp_servers = none;
    executor_id = none;
    status = none;
  })

abbrev pub upsert_item :
    RuntimeState → List String → Option SessionUpsert → String → RuntimeState × List String
upsert_item s seen_ids none now = (s, seen_ids)
upsert_item s seen_ids (some u) now = ((upsert_session s u now).0, add_id u.session_id seen_ids)

-- the first loop of `replace_daemon_sessions`, with the ids that it has seen
unfoldable pub upsert_listed :
    RuntimeState
    → String
    → Option String
    → List Fields
    → List String
    → String
    → RuntimeState × List String
upsert_listed s daemon_id agent_instance_id [] seen_ids now = (s, seen_ids)
upsert_listed s daemon_id agent_instance_id (item ∷ items) seen_ids now =
    let next = upsert_item s seen_ids (listed_session daemon_id agent_instance_id item) now in
    upsert_listed next.0 daemon_id agent_instance_id items next.1 now

-- one round of the second loop: a stale session goes, unless a run is kept for it
unfoldable pub drop_stale : RuntimeState → String → String → RuntimeState
drop_stale s daemon_id session_id = if session_has_local_run s session_id then s else record s {
  sessions = elim (Dict.get s.sessions session_id) [
    | none ↦ s.sessions
    | some session ↦
        if session.daemon_id == daemon_id then Dict.pop s.sessions session_id else s.sessions
  ];
  remote_transcript_items = Dict.pop s.remote_transcript_items session_id;
}

unfoldable pub drop_all_stale : RuntimeState → String → List String → RuntimeState
drop_all_stale s daemon_id [] = s
drop_all_stale s daemon_id (session_id ∷ rest) =
    drop_all_stale (drop_stale s daemon_id session_id) daemon_id rest

unfoldable pub replace_daemon_sessions :
    RuntimeState → String → List Fields → Option String → String → RuntimeState
replace_daemon_sessions s daemon_id items agent_instance_id now =
    let (s', seen_ids) = upsert_listed s daemon_id agent_instance_id items [] now in
    let known = get_or (Dict.get s'.daemon_sessions daemon_id) [] in
    let s'' = drop_all_stale s' daemon_id (filter (λ id. not (one_of id seen_ids)) known) in
    record s'' { daemon_sessions = Dict.put s''.daemon_sessions daemon_id seen_ids }

unfoldable pub get_session : RuntimeState → String → Option Session
get_session s session_id = Dict.get s.sessions session_id

-- `touch_session`; every row has an `executor_id`, so None leaves it
unfoldable pub touch_session :
    RuntimeState
    → String
    → Option Status
    → Option String
    → Option String
    → String
    → RuntimeState × Option Session
touch_session s session_id status updated_at executor_id now =
    elim (Dict.get s.sessions session_id) [
      | none ↦ (s, none)
      | some session ↦
          (let row = record session {
            status = get_or status session.status;
            updated_at = or_else (get_or updated_at "") now;
            executor_id = first_of_two executor_id session.executor_id;
          } in
            (record s { sessions = Dict.put s.sessions session_id row }, some row))
    ]

-- the sort key `(updated_at, id)` in reverse
unfoldable pub is_listed_before : Session → Session → Bool
is_listed_before a b =
    if a.updated_at == b.updated_at then text_le b.id a.id else text_le b.updated_at a.updated_at

abbrev pub is_owned : Option (List String) → Session → Bool
is_owned none session = true
is_owned (some ids) session = elim session.agent_instance_id [
  | none ↦ false
  | some id ↦ one_of id ids
]

unfoldable pub listed_rows : RuntimeState → Option (List String) → List Session
listed_rows s owned = sort_by is_listed_before (filter (is_owned owned) (Dict.values s.sessions))

unfoldable pub after : String → List Session → Option (List Session)
after cursor [] = none
after cursor (row ∷ rest) = if row.id == cursor then some rest else after cursor rest

-- what stands behind the row of the cursor; a cursor that no row has starts at the first row
unfoldable pub rows_after : Option String → List Session → List Session
rows_after none rows = rows
rows_after (some cursor) rows = if is_nonempty cursor then get_or (after cursor rows) rows else rows

abbrev pub last_id : List Session → Option String
last_id [] = none
last_id (row ∷ []) = some row.id
last_id (row ∷ next ∷ rest) = last_id (next ∷ rest)

-- a page of rows and the cursor of the next page
unfoldable pub page_of : ℕ → List Session → List Session × Option String
page_of limit rest =
    (take limit rest, if ltb limit (length rest) then last_id (take limit rest) else none)

unfoldable pub list_sessions :
    RuntimeState → ℕ → Option String → Option (List String) → List Session × Option String
list_sessions s limit cursor owned = page_of limit (rows_after cursor (listed_rows s owned))
