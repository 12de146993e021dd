-- ===== src/Runtime/Decisions.antt =====
-- backend/app/runtime_state.py: reading back a permission request that was decided.
use pocage.Prelude.{
  String, ◌≡◌, ◌&&◌, Option, none, some, ◌==◌, arith, eq_iff, if◌then◌else◌, Option-cases, inl, inr,
}
use pocage.Dict
use pocage.Dict.{Dict, get-put}
use pocage.Runtime.State.{PermissionStatus, PermissionRequest, RuntimeState}
use pocage.Runtime.Permissions.{requests_of, get_permission_request, mark_permission_decided}

-- A request as it reads after a decision.
abbrev pub decided :
    Option PermissionRequest → PermissionStatus → Option String → String → Option PermissionRequest
decided none decision option_id now = none
decided (some row) decision option_id now = some (record row {
  status = decision;
  decision = some decision;
  option_id = option_id;
  decided_at = some now;
})

-- After a decision on a request, that request reads as decided if it is there, and every other request reads as
-- before; a decision on a request that is not there changes nothing.
get-mark_permission_decided :
    (s : RuntimeState) (run_id approval_id : String) (decision : PermissionStatus)
    (option_id : Option String) (now : String) (other_run other_approval : String)
    → get_permission_request
        (mark_permission_decided s run_id approval_id decision option_id now).0
        other_run
        other_approval
      ≡ (if run_id == other_run && approval_id == other_approval
          then decided (get_permission_request s run_id approval_id) decision option_id now
          else get_permission_request s other_run other_approval)
unfolding get_permission_request mark_permission_decided
get-mark_permission_decided s run_id approval_id decision option_id now other_run other_approval =
    elim (Option-cases (Dict.get (requests_of s run_id) approval_id)) [
      | inl e ↦
          rw (e, mark_permission_decided, decided)
            (ground (arith, eq_iff run_id other_run, eq_iff approval_id other_approval))
      | inr (row, e) ↦
          rw
            (
              e,
              mark_permission_decided,
              decided,
              get-put {0} s.permission_requests run_id other_run,
            )
            (ground (
              arith,
              eq_iff run_id other_run,
              get-put (requests_of s run_id) approval_id other_approval (record row {
                status = decision;
                decision = some decision;
                option_id = option_id;
                decided_at = some now;
              }),
            ))
    ]
