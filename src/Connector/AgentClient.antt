-- ===== src/Connector/AgentClient.antt =====
-- connector/pocage/acp_client.py: the state of `AcpProcessClient`. What the agent answers to a call is
-- an argument of the step at which the call ends; `none` is an exception of the call.
use pocage.Prelude.{
  ℕ, suc, String, Bool, true, false, Option, none, some, List, [], ◌∷◌, ◌++◌, map, same, one_of,
  if◌then◌else◌,
}
use pocage.Text.{concat, strip, is_nonempty}
use pocage.Dict
use pocage.Dict.{Dict}
use pocage.Json.Defs.{Value, Fields, null, str, arr, obj, to_items, to_fields}
use pocage.Json.Access.{get, put, nonempty_str}

-- an update of a session as the model that the library parses: the title and the time of a
-- `SessionInfoUpdate`, and `_model_dump` of any update
pub record Update : Type 0 where
  pub info : Option (Option String × Option String)
  pub dump : Fields

pub record SessionReplay : Type 0 where
  pub session_id : String
  pub title : Option String
  pub updated_at : Option String
  pub session_updates : List Fields

unfoldable pub new_replay : String → SessionReplay
new_replay session_id = record {
  session_id = session_id;
  title = none;
  updated_at = none;
  session_updates = [];
}

-- isinstance(text, str) and text.strip(): the stripped text
unfoldable pub stripped_text : Option String → Option String
stripped_text none = none
stripped_text (some s) = if is_nonempty (strip s) then some (strip s) else none

abbrev pub newer : Option String → Option String → Option String
newer none old = old
newer (some s) old = some s

-- `_ReplayCollector.apply`
unfoldable pub apply : SessionReplay → Update → SessionReplay
apply replay update = elim update.info [
  | none ↦ record replay { session_updates = replay.session_updates ++ update.dump ∷ [] }
  | some info ↦ record replay {
    title = newer (stripped_text info.0) replay.title;
    updated_at = newer (stripped_text info.1) replay.updated_at;
  }
]

-- the callbacks that `_handle_run_assign` makes, known by what they close over
pub record PromptCallbacks : Type 0 where
  pub run_id : String
  pub session_id : String

-- The collectors are shared objects: the table holds their places in `collectors`.
pub record AcpClient : Type 0 where
  pub is_connected : Bool
  pub prompt_callbacks : Dict PromptCallbacks
  pub sync_collectors : Dict ℕ
  pub collectors : ℕ → SessionReplay
  pub next_collector : ℕ
  pub session_replays : Dict SessionReplay
  pub live_session_ids : List String

unfoldable pub new_client : AcpClient
new_client = record {
  is_connected = false;
  prompt_callbacks = [];
  sync_collectors = [];
  collectors = λ k. new_replay "";
  next_collector = 0;
  session_replays = [];
  live_session_ids = [];
}

-- a call that returns, or that raises an `ApcRpcError`
pub data Result {ℓ} (A : Type ℓ) : Type ℓ where
  returns : A → Result A
  raises : String → Result A

unfoldable pub stop : AcpClient → AcpClient
stop client = record client {
  is_connected = false;
  prompt_callbacks = [];
  sync_collectors = [];
  session_replays = [];
  live_session_ids = [];
}

-- `start`, where `succeeds` says whether the process starts and answers the `initialize`
unfoldable pub start : AcpClient → (succeeds : Bool) → AcpClient
start client succeeds =
    if client.is_connected
    then client
    else if succeeds
    then record client { is_connected = true }
    else stop client

abbrev pub not_running : String
not_running = "acp process is not running"

unfoldable pub add_live : List String → String → List String
add_live ids session_id = if one_of session_id ids then ids else session_id ∷ ids

-- `new_session`, with the payload that the agent answers
unfoldable pub new_session : AcpClient → Fields → AcpClient × Result Fields
new_session client payload =
    if client.is_connected
    then elim (nonempty_str (get payload "sessionId")) [
      | none ↦ (client, returns payload)
      | some session_id ↦ (
        record client { live_session_ids = add_live client.live_session_ids session_id },
        returns payload,
      )
    ]
    else (client, raises not_running)

unfoldable pub has_live_session : AcpClient → String → Bool
has_live_session client session_id = one_of session_id client.live_session_ids

-- The start of `_load_session_replay`: the place of the collector. Without a connection the new
-- collector is taken out of the table again.
unfoldable pub load_begins : AcpClient → String → AcpClient × Result ℕ
load_begins client session_id =
    if Dict.has client.sync_collectors session_id
    then (client, raises (concat ("session load already running: " ∷ session_id ∷ [])))
    else if client.is_connected
    then (
      record client {
        sync_collectors = Dict.put client.sync_collectors session_id client.next_collector;
        collectors = λ k.
            if same k client.next_collector then new_replay session_id else client.collectors k;
        next_collector = suc client.next_collector;
      },
      returns client.next_collector,
    )
    else (client, raises not_running)

abbrev pub optional_text : Option String → Value
optional_text none = null
optional_text (some s) = str s

abbrev pub update_values : List Fields → Value
update_values updates = arr (to_items (map obj updates))

unfoldable pub replay_payload : SessionReplay → Fields
replay_payload replay = to_fields (
    ("session_id", str replay.session_id)
    ∷ ("title", optional_text replay.title)
    ∷ ("updated_at", optional_text replay.updated_at)
    ∷ ("session_updates", update_values replay.session_updates)
    ∷ [])

unfoldable pub attach_replay_payload : Fields → SessionReplay → Fields
attach_replay_payload payload replay =
    put
      (put (put payload "title" (optional_text replay.title)) "updated_at"
        (optional_text replay.updated_at))
      "session_updates" (update_values replay.session_updates)

-- the rest of `_load_session_replay`, when the agent has answered or the call has failed
unfoldable pub load_ends : AcpClient → String → ℕ → Option Fields → AcpClient × Option Fields
load_ends client session_id collector none =
    (record client { sync_collectors = Dict.pop client.sync_collectors session_id }, none)
load_ends client session_id collector (some response) =
    let replay = record (client.collectors collector) { session_id = session_id } in
    (
      record client {
        sync_collectors = Dict.pop client.sync_collectors session_id;
        session_replays = Dict.put client.session_replays session_id replay;
        live_session_ids = add_live client.live_session_ids session_id;
      },
      some (attach_replay_payload (put response "session_id" (str session_id)) replay),
    )

-- what `sync_session` gives at once: a payload, or a load that has begun
pub data Sync : Type 0 where
  cached : Fields → Sync
  loading : ℕ → Sync

abbrev as_loading : Result ℕ → Result Sync
as_loading (returns collector) = returns (loading collector)
as_loading (raises message) = raises message

unfoldable pub sync_session : AcpClient → String → AcpClient × Result Sync
sync_session client session_id = elim (Dict.get client.session_replays session_id) [
  | some replay ↦ (client, returns (cached (replay_payload replay)))
  | none ↦ let (client', result) = load_begins client session_id in (client', as_loading result)
]

-- the `finally` of `prompt`
unfoldable pub prompt_ends : AcpClient → String → AcpClient
prompt_ends client session_id = record client {
  prompt_callbacks = Dict.pop client.prompt_callbacks session_id;
}

-- `prompt` up to the answer: the message of its exception, if it raises. Without a connection its
-- callbacks are taken out again.
unfoldable pub prompt_begins : AcpClient → String → PromptCallbacks → AcpClient × Option String
prompt_begins client session_id callbacks =
    let client' = record client {
      prompt_callbacks = Dict.put client.prompt_callbacks session_id callbacks;
    } in
    if client.is_connected
    then (client', none)
    else (prompt_ends client' session_id, some not_running)

abbrev only_value : Dict PromptCallbacks → Option PromptCallbacks
only_value [] = none
only_value ((session_id, callbacks) ∷ []) = some callbacks
only_value (_ ∷ _ ∷ rest) = none

abbrev lookup_callbacks : Dict PromptCallbacks → Option String → Option PromptCallbacks
lookup_callbacks table none = none
lookup_callbacks table (some session_id) = Dict.get table session_id

unfoldable pub resolve_callbacks : AcpClient → Option String → Option PromptCallbacks
resolve_callbacks client session_id = elim (lookup_callbacks client.prompt_callbacks session_id) [
  | some callbacks ↦ some callbacks
  | none ↦ only_value client.prompt_callbacks
]

-- `collector.apply(update)`
unfoldable pub collect : AcpClient → Option ℕ → Update → AcpClient
collect client none update = client
collect client (some collector) update = record client {
  collectors =
      λ k. if same k collector then apply (client.collectors k) update else client.collectors k;
}

-- `_handle_session_update`: the new state, and the callbacks that get the dump of the update
unfoldable pub handle_session_update :
    AcpClient → String → Update → AcpClient × Option (PromptCallbacks × Fields)
handle_session_update client session_id update = (
  collect client (Dict.get client.sync_collectors session_id) update,
  elim (resolve_callbacks client (some session_id)) [
    | none ↦ none
    | some callbacks ↦ some (callbacks, update.dump)
  ],
)
