-- ===== src/Transcript/Updates.antt =====
-- backend/app/transcript_projection.py: what an update shows. `validate` stands for
-- `SESSION_UPDATE_ADAPTER.validate_python`; `none` is a ValidationError, after which the raw dict stays.
use Prim.Native.String.{count}
use pocage.Prelude.{
  String, Bool, false, Option, none, some, [], ◌∷◌, filter, leb, one_of, if◌then◌else◌,
}
use pocage.Text.{concat, join, prefix, is_nonempty, or_else}
use pocage.Json.Defs.{Value, Fields, null, bool, nat, number, str, arr, obj}
use pocage.Json.Access.{get, nonempty_str}
use pocage.Json.Dump.{dumps, show}
use pocage.Rows.{RunEvent}
use pocage.Transcript.Defs.{
  Update, agent_message, agent_thought, user_message, tool_call, plan, current_mode,
  available_commands, usage, Step, SegmentKind, message, thought, content_to_text,
}

-- `_compact_json`
unfoldable pub compact_json : Value → Option String
compact_json value =
    let text = dumps value in
    if one_of text ("{}" ∷ "[]" ∷ "null" ∷ "\"\"" ∷ [])
    then none
    else if leb (count text) 240
    then some text
    else some (concat (prefix 237 text ∷ "..." ∷ []))

abbrev is_true : Value → Bool
is_true (bool b) = b
is_true null = false
is_true (nat n) = false
is_true (number t) = false
is_true (str s) = false
is_true (arr vs) = false
is_true (obj fs) = false

abbrev nonempty : Option String → Option String
nonempty none = none
nonempty (some s) = if is_nonempty s then some s else none

abbrev either {ℓ} : {A : Type ℓ} → Option A → Option A → Option A
either (some a) d = some a
either none d = d

abbrev text_or : Option String → String → String
text_or (some s) d = s
text_or none d = d

unfoldable pub step_of :
    RunEvent → Fields → (summary : String) → Option String → (session_update : String) → Step
step_of event raw_update summary detail session_update = record {
  step_id = or_else event.event_id (concat (event.run_id ∷ "-" ∷ show event.seq ∷ []));
  summary = summary;
  detail = detail;
  created_at = event.created_at;
  session_update = session_update;
  data_of = raw_update;
}

-- an update that is no model, with a name
unfoldable pub unknown_step : RunEvent → Fields → Option Step
unknown_step event raw_update = elim (nonempty_str (get raw_update "sessionUpdate")) [
  | none ↦ none
  | some name ↦ some (
      step_of event raw_update (concat ("Update: " ∷ name ∷ [])) (compact_json (obj raw_update))
        name)
]

unfoldable pub model_step : RunEvent → Fields → Update → Option Step
model_step event raw_update (agent_message content) = none
model_step event raw_update (agent_thought content) = none
model_step event raw_update (user_message content) = none
model_step event raw_update usage = none
model_step event raw_update (tool_call title status raw_output session_update) = some (
    step_of event raw_update (text_or (nonempty title) "Tool call")
      (either (nonempty status) (compact_json raw_output)) session_update)
model_step event raw_update (plan entries session_update) = some (
    step_of event raw_update "Plan updated"
      (nonempty (some (join ", " (filter is_nonempty entries)))) session_update)
model_step event raw_update (current_mode current_mode_id session_update) =
    some (step_of event raw_update "Mode updated" (some current_mode_id) session_update)
model_step event raw_update (available_commands commands session_update) = some (
    step_of event raw_update "Commands updated" (some (concat (show commands ∷ " available" ∷ [])))
      session_update)

-- `_step_from_update`
unfoldable pub step_from_update : Option Update → Fields → RunEvent → Option Step
step_from_update update raw_update event =
    if is_true (get raw_update "truncated")
    then some (step_of event raw_update (concat ("Update truncated: " ∷ label ∷ [])) none label)
    else elim update [
      | none ↦ unknown_step event raw_update
      | some u ↦ model_step event raw_update u
    ]
  where
    label : String
    label = text_or (nonempty_str (get raw_update "sessionUpdate")) "session_update"

abbrev visible : SegmentKind → String → Option (SegmentKind × String)
visible kind text = if is_nonempty text then some (kind, text) else none

-- `_visible_segment`
unfoldable pub visible_segment : Option Update → Option (SegmentKind × String)
visible_segment none = none
visible_segment (some (agent_message content)) = visible message (content_to_text content)
visible_segment (some (agent_thought content)) = visible thought (content_to_text content)
visible_segment (some (user_message content)) = none
visible_segment (some (tool_call title status raw_output session_update)) = none
visible_segment (some (plan entries session_update)) = none
visible_segment (some (current_mode current_mode_id session_update)) = none
visible_segment (some (available_commands commands session_update)) = none
visible_segment (some usage) = none
