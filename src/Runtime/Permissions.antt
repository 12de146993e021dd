-- ===== src/Runtime/Permissions.antt =====
-- backend/app/runtime_state.py: the permission requests of a run.
use pocage.Prelude.{String, Option, none, some, List, [], sort_by, get_or}
use pocage.Dict
use pocage.Dict.{Dict}
use pocage.Json.Defs.{Value, Fields}
use pocage.Runtime.State.{PermissionStatus, pending, PermissionRequest, RuntimeState, text_le}

abbrev pub requests_of : RuntimeState → String → Dict PermissionRequest
requests_of s run_id = get_or (Dict.get s.permission_requests run_id) []

abbrev put_request : RuntimeState → String → String → PermissionRequest → RuntimeState
put_request s run_id approval_id row = record s {
  permission_requests =
      Dict.put s.permission_requests run_id (Dict.put (requests_of s run_id) approval_id row);
}

unfoldable pub create_permission_request :
    RuntimeState
    → (run_id approval_id : String) → Option String
    → String
    → Fields
    → List Value
    → String
    → RuntimeState × PermissionRequest
create_permission_request s run_id approval_id executor_id session_id tool_call options now =
    let row : PermissionRequest = record {
      approval_id = approval_id;
      run_id = run_id;
      executor_id = executor_id;
      session_id = session_id;
      status = pending;
      tool_call = tool_call;
      options = options;
      decision = none;
      option_id = none;
      created_at = now;
      decided_at = none;
    } in
    (put_request s run_id approval_id row, row)

unfoldable pub list_permission_requests : RuntimeState → String → List PermissionRequest
list_permission_requests s run_id =
    sort_by (λ a b. text_le a.created_at b.created_at) (Dict.values (requests_of s run_id))

unfoldable pub get_permission_request : RuntimeState → String → String → Option PermissionRequest
get_permission_request s run_id approval_id = Dict.get (requests_of s run_id) approval_id

unfoldable pub mark_permission_decided :
    RuntimeState
    → (run_id approval_id : String) → PermissionStatus
    → Option String
    → String
    → RuntimeState × Option PermissionRequest
mark_permission_decided s run_id approval_id decision option_id now =
    elim (Dict.get (requests_of s run_id) approval_id) [
      | none ↦ (s, none)
      | some row ↦
          (let row' = record row {
            status = decision;
            decision = some decision;
            option_id = option_id;
            decided_at = some now;
          } in
            (put_request s run_id approval_id row', some row'))
    ]
