-- ===== src/Rows.antt =====
-- backend/app/models.py and runtime_state.py: statuses, stored events and permission requests, which
-- the runtime state and the transcripts share.
use Prim.Native.String.{compare}
use text.Mathlib.Text.{is_le}
use pocage.Prelude.{ℕ, String, Bool, true, false, Option, List}
use pocage.Json.Defs.{Value, Fields}

-- SessionStatus of models.py; RunStatus is the same without `idle`
pub data Status : Type 0 where
  idle queued assigned running completed cancelled failed executor_disconnected : Status

-- status in ACTIVE_RUN_STATUSES
abbrev pub is_active : Status → Bool
is_active queued = true
is_active assigned = true
is_active running = true
is_active idle = false
is_active completed = false
is_active cancelled = false
is_active failed = false
is_active executor_disconnected = false

-- status in TERMINAL_RUN_STATUSES
abbrev pub is_terminal : Status → Bool
is_terminal completed = true
is_terminal cancelled = true
is_terminal failed = true
is_terminal executor_disconnected = true
is_terminal idle = false
is_terminal queued = false
is_terminal assigned = false
is_terminal running = false

abbrev pub is_queued : Status → Bool
is_queued queued = true
is_queued idle = false
is_queued assigned = false
is_queued running = false
is_queued completed = false
is_queued cancelled = false
is_queued failed = false
is_queued executor_disconnected = false

pub record RunEvent : Type 0 where
  pub event_id : String
  pub run_id : String
  pub seq : ℕ
  pub event_type : String
  pub payload : Fields
  pub created_at : String

-- PermissionStatus of models.py; PermissionDecision is the same without `pending`
pub data PermissionStatus : Type 0 where
  pending selected cancelled : PermissionStatus

pub record PermissionRequest : Type 0 where
  pub approval_id : String
  pub run_id : String
  pub executor_id : Option String
  pub session_id : String
  pub status : PermissionStatus
  pub tool_call : Fields
  pub options : List Value
  pub decision : Option PermissionStatus
  pub option_id : Option String
  pub created_at : String
  pub decided_at : Option String

-- the order of texts, by code points
abbrev pub text_le : String → String → Bool
text_le a b = is_le (compare a b)
