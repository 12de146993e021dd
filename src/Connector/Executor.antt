-- ===== src/Connector/Executor.antt =====
-- connector/pocage/executor.py: the state of `PocageExecutor`, the permission decisions that it waits
-- for, and the start and end of runs. `text_of` stands for `str` of a JSON value.
use pocage.Prelude.{
  ℕ, String, Bool, true, false, not, ◌||◌, Option, none, some, List, [], ◌∷◌, if◌then◌else◌,
}
use pocage.Text.{strip, is_nonempty}
use pocage.Dict
use pocage.Dict.{Dict}
use pocage.Json.Defs.{
  Value, Items, Fields, null, bool, nat, number, str, arr, obj, nil, item, end, to_fields,
}
use pocage.Json.Access.{get, as_str, is_text, truthy, nonempty_str}
use pocage.Waiters.{done_with, Waiters, lookup, open_waiter, pop_waiter, settle, settle_first}
use pocage.Connector.AgentClient.{AcpClient, stop}

pub record ActiveRun : Type 0 where
  pub run_id : String
  pub session_id : String

-- the dict that a decision is: "selected" with an option, or "cancelled", with a reason or without
pub data Decision : Type 0 where
  selected : (option_id : String) → Decision
  cancelled : (reason : Option String) → Decision

-- `stop_event` tells whether `_stop_event` is set
pub record PocageExecutor : Type 0 where
  pub stop_event : Bool
  pub acp : AcpClient
  pub active_runs : Dict ActiveRun
  pub pending_permission_decisions : Waiters Decision

-- `_cancel_permission_waiters`
unfoldable pub cancel_permission_waiters :
    PocageExecutor → (run_id reason : String) → PocageExecutor
cancel_permission_waiters e run_id reason = record e {
  pending_permission_decisions =
      settle_first e.pending_permission_decisions run_id (done_with (cancelled (some reason)));
}

-- str(value or "")
unfoldable pub text_or_empty : (Value → String) → Value → String
text_or_empty text_of value = if truthy value then text_of value else ""

abbrev decision_of : Bool → Option String → Decision
decision_of true (some option_id) = selected option_id
decision_of true none = cancelled none
decision_of false option_id = cancelled none

-- the decision in a message
unfoldable pub message_decision : Fields → Decision
message_decision message =
    decision_of (is_text (get message "decision") "selected") (as_str (get message "option_id"))

abbrev pub decide : Waiters Decision → Option ℕ → Decision → Waiters Decision
decide w none decision = w
decide w (some future) decision = settle w future (done_with decision)

-- `_handle_permission_decision`: the future stays in the table, for the callback that waits for it
unfoldable pub handle_permission_decision :
    (Value → String) → PocageExecutor → Fields → PocageExecutor
handle_permission_decision text_of e message =
    let run_id = text_or_empty text_of (get message "run_id") in
    let approval_id = text_or_empty text_of (get message "approval_id") in
    if not (is_nonempty run_id) || not (is_nonempty approval_id) then e else record e {
      pending_permission_decisions =
          decide e.pending_permission_decisions
            (lookup e.pending_permission_decisions (run_id, approval_id))
            (message_decision message);
    }

-- isinstance(value, dict) of each item of a list
unfoldable pub dict_items : Items → Items
dict_items nil = nil
dict_items (item (obj fs) vs) = item (obj fs) (dict_items vs)
dict_items (item null vs) = dict_items vs
dict_items (item (bool b) vs) = dict_items vs
dict_items (item (nat n) vs) = dict_items vs
dict_items (item (number t) vs) = dict_items vs
dict_items (item (str s) vs) = dict_items vs
dict_items (item (arr us) vs) = dict_items vs

unfoldable pub dicts_in : Value → Items
dicts_in (arr vs) = dict_items vs
dicts_in (obj fs) = nil
dicts_in null = nil
dicts_in (bool b) = nil
dicts_in (nat n) = nil
dicts_in (number t) = nil
dicts_in (str s) = nil

abbrev dict_or_empty : Value → Value
dict_or_empty (obj fs) = obj fs
dict_or_empty _ = obj end

abbrev text_or : Option String → String → String
text_or none fallback = fallback
text_or (some s) fallback = s

-- what a request for a permission comes to at first
pub data Request : Type 0 where
  answers : Decision → Request
  waits : (future : ℕ) → (approval_id : String) → (message : Fields) → Request

unfoldable pub permission_message : (run_id session_id approval_id : String) → Fields → Fields
permission_message run_id session_id approval_id request = to_fields (
    ("type", str "run.permission.requested")
    ∷ ("run_id", str run_id)
    ∷ ("approval_id", str approval_id)
    ∷ ("session_id", str (text_or (nonempty_str (get request "session_id")) session_id))
    ∷ ("tool_call", dict_or_empty (get request "tool_call"))
    ∷ ("options", arr (dicts_in (get request "options")))
    ∷ [])

-- `on_permission_request` of a run up to its wait. Where the message cannot be sent, the entry stays.
unfoldable pub permission_requested :
    (Value → String)
    → (sends : Bool) → PocageExecutor
    → (run_id session_id : String) → Fields
    → PocageExecutor × Request
permission_requested text_of sends e run_id session_id request =
    let approval_id = strip (text_or_empty text_of (get request "approval_id")) in
    if is_nonempty approval_id
    then (let (waiters, future) =
          open_waiter e.pending_permission_decisions (run_id, approval_id) in
        (
          record e { pending_permission_decisions = waiters },
          if sends
              then waits future approval_id
                  (permission_message run_id session_id approval_id request)
              else answers (cancelled none),
        ))
    else (e, answers (cancelled none))

-- the `finally` of `on_permission_request`
unfoldable pub permission_answered : PocageExecutor → (run_id approval_id : String) → PocageExecutor
permission_answered e run_id approval_id = record e {
  pending_permission_decisions = pop_waiter e.pending_permission_decisions (run_id, approval_id);
}

-- the part of `_handle_run_assign` in which the run is accepted
unfoldable pub run_accepted : PocageExecutor → (run_id session_id : String) → PocageExecutor
run_accepted e run_id session_id = record e {
  active_runs = Dict.put e.active_runs run_id (record { run_id = run_id; session_id = session_id });
}

-- the `finally` behind the prompt
unfoldable pub run_finished : PocageExecutor → (run_id : String) → PocageExecutor
run_finished e run_id =
    let e' = cancel_permission_waiters e run_id "run_finished" in
    record e' { active_runs = Dict.pop e'.active_runs run_id }

-- what an exception outside of the prompt leads to: the agent client is made anew
unfoldable pub run_setup_failed : AcpClient → PocageExecutor → (run_id : String) → PocageExecutor
run_setup_failed new_client e run_id =
    record (cancel_permission_waiters e run_id "run_setup_failed") { acp = new_client }

-- `_handle_run_cancel`: the new state and the session at which the agent is told
unfoldable pub handle_run_cancel :
    (Value → String) → PocageExecutor → Fields → PocageExecutor × Option String
handle_run_cancel text_of e message =
    let run_id = text_of (get message "run_id") in
    elim (Dict.get e.active_runs run_id) [
      | none ↦ (e, none)
      | some active ↦ (cancel_permission_waiters e run_id "run_cancelled", some active.session_id)
    ]

unfoldable pub cancel_each : PocageExecutor → List String → PocageExecutor
cancel_each e [] = e
cancel_each e (run_id ∷ run_ids) =
    cancel_each (cancel_permission_waiters e run_id "backend_connection_closed") run_ids

-- the `finally` of `_run_once`
unfoldable pub backend_connection_closed : PocageExecutor → PocageExecutor
backend_connection_closed e = record (cancel_each e (Dict.keys e.active_runs)) { active_runs = [] }

unfoldable pub stop_executor : PocageExecutor → PocageExecutor
stop_executor e = record e { stop_event = true; acp = stop e.acp }
