-- ===== src/Connector/Messages.antt =====
-- connector/pocage/executor.py: what the connector reads from the agent's answers and sends back to
-- the backend. `text_of` stands for `str` of a JSON value and `lower` for `str.lower`.
use pocage.Prelude.{
  String, ◌⊎◌, inl, inr, Bool, true, false, ◌||◌, Option, none, some, List, [], ◌∷◌, ◌==◌,
  if◌then◌else◌, get_or,
}
use pocage.Text.{strip, or_else}
use pocage.Text.Search.{contains}
use pocage.Json.Defs.{
  Value, Items, Fields, null, bool, nat, number, str, arr, obj, nil, item, to_fields, to_items,
}
use pocage.Json.Access.{get, member, as_str, as_obj, stripped, nonempty_str}

abbrev is_missing : Value → Bool
is_missing null = true
is_missing (str s) = s == ""
is_missing _ = false

-- response["stopReason"], or else response["stop_reason"]
unfoldable pub raw_stop_reason : Fields → Value
raw_stop_reason response =
    let raw = get response "stopReason" in
    if is_missing raw then get response "stop_reason" else raw

unfoldable pub stop_reason : (Value → String) → Fields → String
stop_reason text_of response = reason (raw_stop_reason response)
  where
    reason : Value → String
    reason (str s) = or_else (strip s) "completed"
    reason null = "completed"
    reason (bool b) = text_of (bool b)
    reason (nat n) = text_of (nat n)
    reason (number t) = text_of (number t)
    reason (arr vs) = text_of (arr vs)
    reason (obj fs) = text_of (obj fs)

-- isinstance(title, str) and title.strip(): the title as it is
unfoldable pub title_or_new : Value → String
title_or_new title = elim (stripped title) [
  | none ↦ "New session"
  | some s ↦ elim (as_str title) [ none ↦ "New session" | some whole ↦ whole ]
]

abbrev listed : Fields → Option String → Option String → Option String → Option Value
listed session (some session_id) (some cwd) (some updated_at) = some (
    obj (
      to_fields (
        ("session_id", str session_id)
        ∷ ("cwd", str cwd)
        ∷ ("title", str (title_or_new (get session "title")))
        ∷ ("updated_at", str updated_at)
        ∷ [])))
listed session _ _ _ = none

-- one round of the loop of `_handle_session_list_request`
unfoldable pub session_list_item : Value → Option Value
session_list_item v = elim (as_obj v) [
  | none ↦ none
  | some session ↦
      listed session (nonempty_str (get session "sessionId")) (nonempty_str (get session "cwd"))
        (nonempty_str (get session "updatedAt"))
]

abbrev add_value : Option Value → List Value → List Value
add_value none rest = rest
add_value (some v) rest = v ∷ rest

unfoldable pub session_list_items : Items → List Value
session_list_items nil = []
session_list_items (item v vs) = add_value (session_list_item v) (session_list_items vs)

abbrev listed_sessions : Value → List Value
listed_sessions (arr vs) = session_list_items vs
listed_sessions _ = []

abbrev text_or_null : Option String → Value
text_or_null none = null
text_or_null (some s) = str s

-- the answer to a `session.list.request`; `inr` is the message of an exception
unfoldable pub session_list_result : (request_id : String) → Fields ⊎ String → Fields
session_list_result request_id (inl result) = to_fields (
    ("type", str "session.list.result")
    ∷ ("request_id", str request_id)
    ∷ ("items", arr (to_items (listed_sessions (get result "sessions"))))
    ∷ ("next_cursor", text_or_null (as_str (get result "nextCursor")))
    ∷ ("error_message", null)
    ∷ [])
session_list_result request_id (inr message) = to_fields (
    ("type", str "session.list.result")
    ∷ ("request_id", str request_id)
    ∷ ("items", arr nil)
    ∷ ("next_cursor", null)
    ∷ ("error_message", str message)
    ∷ [])

-- the session made for a `session.create.request`
pub record CreatedSession : Type 0 where
  pub session_id : String
  pub cwd : String
  pub updated_at : String

-- the answer to a `session.create.request`
unfoldable pub session_create_result : (request_id : String) → CreatedSession ⊎ String → Fields
session_create_result request_id (inl session) = to_fields (
    ("type", str "session.create.result")
    ∷ ("request_id", str request_id)
    ∷ (
      "session",
      obj (
          to_fields (
            ("session_id", str session.session_id)
            ∷ ("cwd", str session.cwd)
            ∷ ("title", str "New session")
            ∷ ("updated_at", str session.updated_at)
            ∷ [])),
    )
    ∷ ("error_message", null)
    ∷ [])
session_create_result request_id (inr message) = to_fields (
    ("type", str "session.create.result")
    ∷ ("request_id", str request_id)
    ∷ ("session", null)
    ∷ ("error_message", str message)
    ∷ [])

-- the answer to a `session.sync.request`, from the payload of `sync_session`
unfoldable pub session_sync_result : (request_id session_id : String) → Fields ⊎ String → Fields
session_sync_result request_id session_id (inl result) = to_fields (
    ("type", str "session.sync.result")
    ∷ ("request_id", str request_id)
    ∷ ("session_id", str session_id)
    ∷ ("title", get result "title")
    ∷ ("updated_at", get result "updated_at")
    ∷ ("session_updates", get_or (member result "session_updates") (arr nil))
    ∷ ("error_message", null)
    ∷ [])
session_sync_result request_id session_id (inr message) = to_fields (
    ("type", str "session.sync.result")
    ∷ ("request_id", str request_id)
    ∷ ("session_id", str session_id)
    ∷ ("title", null)
    ∷ ("updated_at", null)
    ∷ ("session_updates", arr nil)
    ∷ ("error_message", str message)
    ∷ [])

module _ (lower : String → String) where
  abbrev is_preferred : String → Bool
  is_preferred mode_id = contains (lower mode_id) "code" || contains (lower mode_id) "auto"

  abbrev preferred : Option String → Option String → Option String
  preferred none rest = rest
  preferred (some mode_id) rest = if is_preferred mode_id then some mode_id else rest

  abbrev mode_id_of : Value → Option String
  mode_id_of mode = elim (as_obj mode) [ none ↦ none | some fields ↦ as_str (get fields "id") ]

  -- the loop of `_try_set_preferred_mode`
  unfoldable pub best_mode : Items → Option String
  best_mode nil = none
  best_mode (item mode modes) = preferred (mode_id_of mode) (best_mode modes)

  abbrev best_available : Value → Option String
  best_available (arr modes) = best_mode modes
  best_available _ = none

  -- the mode that `_try_set_preferred_mode` sets
  unfoldable pub preferred_mode : Fields → Option String
  preferred_mode payload = elim (as_obj (get payload "modes")) [
    | none ↦ none
    | some modes ↦ best_available (get modes "availableModes")
  ]
