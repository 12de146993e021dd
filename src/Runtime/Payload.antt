-- ===== src/Runtime/Payload.antt =====
-- backend/app/runtime_state.py: what is stored of an event's payload when it is too large.
use Prim.Native.String.{count}
use pocage.Prelude.{
  ℕ, ◌-◌, String, Bool, true, false, not, ◌&&◌, none, some, List, [], ◌∷◌, map, filter, leb, one_of,
  is_some, take, if◌then◌else◌,
}
use pocage.Text.{prefix, concat, is_nonempty}
use pocage.Json.Defs.{Value, Fields, null, bool, nat, number, str, arr, obj, to_items, to_fields}
use pocage.Json.Access.{member, get, put, keys, as_str, as_obj, truthy, stripped}
use pocage.Json.Size.{json_size}

abbrev pub truncatable_event_types : List String
truncatable_event_types = "run.session_update" ∷ []

-- `_truncate_text` with its default limit of 512
unfoldable pub truncate_text : String → String
truncate_text value =
    if leb (count value) 512 then value else concat (prefix (512 - 3) value ∷ "..." ∷ [])

-- `_coerce_scalar`: None for what is no scalar, and for None itself
unfoldable pub coerce_scalar : Value → Value
coerce_scalar null = null
coerce_scalar (bool b) = bool b
coerce_scalar (nat n) = nat n
coerce_scalar (number t) = number t
coerce_scalar (str s) = str (truncate_text s)
coerce_scalar (arr vs) = null
coerce_scalar (obj fs) = null

abbrev is_null : Value → Bool
is_null null = true
is_null (bool b) = false
is_null (nat n) = false
is_null (number t) = false
is_null (str s) = false
is_null (arr vs) = false
is_null (obj fs) = false

-- the body of the loops that copy a scalar: a key that is missing, or whose value is a list or a
-- dict, is left out
unfoldable pub copy_scalar : Fields → Fields → String → Fields
copy_scalar source summary key = elim (member source key) [
  | none ↦ summary
  | some value ↦
      if is_null (coerce_scalar value) && not (is_null value)
      then summary
      else put summary key (coerce_scalar value)
]

unfoldable pub copy_scalars : Fields → List String → Fields → Fields
copy_scalars source [] summary = summary
copy_scalars source (key ∷ rest) summary = copy_scalars source rest (copy_scalar source summary key)

abbrev pub summary_keys : List String
summary_keys =
    "run_id" ∷ "session_id" ∷ "approval_id" ∷ "decision" ∷ "option_id" ∷ "stop_reason"
    ∷ "error_code" ∷ []

unfoldable pub copy_error_message : Fields → Fields → Fields
copy_error_message source summary = elim (as_str (get source "error_message")) [
  | none ↦ summary
  | some message ↦
      if is_nonempty message
      then put summary "error_message" (str (truncate_text message))
      else summary
]

-- the dict that is returned when even the summary is too large
unfoldable pub bare_summary : ℕ → Fields
bare_summary original_size_bytes =
    to_fields (("truncated", bool true) ∷ ("original_size_bytes", nat original_size_bytes) ∷ [])

unfoldable pub summarize : String → Fields → ℕ → Fields
summarize event_type candidate original_size_bytes = copy_error_message candidate (
    copy_scalars candidate summary_keys (
      to_fields (
        ("truncated", bool true)
        ∷ ("original_size_bytes", nat original_size_bytes)
        ∷ ("summary", str (concat (event_type ∷ " payload omitted" ∷ [])))
        ∷ [])))

unfoldable pub fit_payload_within_limit : String → Fields → ℕ → ℕ → Fields
fit_payload_within_limit event_type payload max_payload_bytes original_size_bytes =
    let summary = summarize event_type payload original_size_bytes in
    if leb (json_size (obj payload)) max_payload_bytes
    then payload
    else if leb (json_size (obj summary)) max_payload_bytes
    then summary
    else bare_summary original_size_bytes

abbrev pub update_keys : List String
update_keys =
    "toolCallId" ∷ "tool_call_id" ∷ "toolName" ∷ "tool_name" ∷ "title" ∷ "status" ∷ "messageId"
    ∷ "message_id" ∷ []

-- the name that `update_summary` starts with
unfoldable pub update_name : Fields → String
update_name raw_update =
    let session_update =
      if truthy (get raw_update "sessionUpdate")
      then get raw_update "sessionUpdate"
      else get raw_update "session_update" in
    elim (stripped session_update) [ none ↦ "truncated_update" | some name ↦ name ]

unfoldable pub add_omitted_keys : Fields → Fields → Fields
add_omitted_keys raw_update summary =
    let omitted_keys = filter (λ key. not (is_some (member summary key))) (keys raw_update) in
    elim omitted_keys [
      | [] ↦ summary
      | key ∷ rest ↦ put summary "omitted_keys" (arr (to_items (map str (take 20 (key ∷ rest)))))
    ]

unfoldable pub summarize_update : Value → Fields
summarize_update raw_update = elim (as_obj raw_update) [
  | none ↦ to_fields (("sessionUpdate", str "truncated_update") ∷ ("truncated", bool true) ∷ [])
  | some update ↦
      put
        (add_omitted_keys update (
          copy_scalars update update_keys
            (to_fields (("sessionUpdate", str (update_name update)) ∷ []))))
        "truncated" (bool true)
]

unfoldable pub truncate_session_update_payload : Fields → ℕ → ℕ → Fields
truncate_session_update_payload payload max_payload_bytes original_size_bytes =
    fit_payload_within_limit "run.session_update"
      (to_fields (
        ("run_id", get payload "run_id")
        ∷ ("session_id", get payload "session_id")
        ∷ ("update", obj (summarize_update (get payload "update")))
        ∷ ("truncated", bool true)
        ∷ ("original_size_bytes", nat original_size_bytes)
        ∷ []))
      max_payload_bytes original_size_bytes

-- `_normalized_event_payload_locked`
unfoldable pub normalized_event_payload : ℕ → String → Fields → Fields
normalized_event_payload max_payload_bytes event_type payload =
    let original_size_bytes = json_size (obj payload) in
    if leb original_size_bytes max_payload_bytes
    then payload
    else if one_of event_type truncatable_event_types
    then truncate_session_update_payload payload max_payload_bytes original_size_bytes
    else fit_payload_within_limit event_type payload max_payload_bytes original_size_bytes
