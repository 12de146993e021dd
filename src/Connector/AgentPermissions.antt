-- ===== src/Connector/AgentPermissions.antt =====
-- connector/pocage/acp_client.py: `_handle_permission_request` of `AcpProcessClient`.
use pocage.Prelude.{String, Bool, true, false, Option, none, some, List, [], ◌∷◌, if◌then◌else◌}
use pocage.Text.{is_nonempty}
use pocage.Json.Defs.{Value, Fields, str, arr, obj, to_items, to_fields}
use pocage.Json.Access.{get, as_str, is_text, truthy}
use pocage.Prelude.{map}
use pocage.Connector.McpServers.{normalize_permission_options}
use pocage.Connector.AgentClient.{AcpClient, PromptCallbacks, resolve_callbacks}

abbrev or_value : Value → Value → Value
or_value v w = if truthy v then v else w

-- the request that the callback gets, from the dumps of the tool call and of the options
unfoldable pub permission_request : (session_id : String) → Fields → List Fields → Fields
permission_request session_id tool_call options = to_fields (
    (
      "approval_id",
      or_value (or_value (get tool_call "toolCallId") (get tool_call "tool_call_id")) (str ""),
    )
    ∷ ("session_id", str session_id)
    ∷ ("tool_call", obj tool_call)
    ∷ ("options", arr (to_items (map obj (normalize_permission_options options))))
    ∷ [])

-- the callbacks that are asked, and the request
unfoldable pub permission_call :
    AcpClient → (session_id : String) → Fields → List Fields → Option (PromptCallbacks × Fields)
permission_call client session_id tool_call options =
    elim (resolve_callbacks client (if is_nonempty session_id then some session_id else none)) [
      | none ↦ none
      | some callbacks ↦ some (callbacks, permission_request session_id tool_call options)
    ]

pub data Outcome : Type 0 where
  selected : (option_id : String) → Outcome
  cancelled : Outcome

abbrev option_of : Bool → Option String → Outcome
option_of true (some option_id) = if is_nonempty option_id then selected option_id else cancelled
option_of true none = cancelled
option_of false option_id = cancelled

-- the response to the agent; `none` is no callback, an exception of it, or a result that is no dict
unfoldable pub permission_outcome : Option Fields → Outcome
permission_outcome none = cancelled
permission_outcome (some result) =
    option_of (is_text (get result "decision") "selected") (as_str (get result "option_id"))
