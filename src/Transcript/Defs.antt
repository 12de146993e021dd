-- ===== src/Transcript/Defs.antt =====
-- backend/app/transcript_projection.py: what it reads of a session update, and the items it makes.
-- `Update` holds what the code reads of the models of `acp.schema`, whose validation is a parameter.
use pocage.Prelude.{ℕ, String, Option, none, some, List, [], ◌∷◌, if◌then◌else◌}
use pocage.Text.{concat, strip, is_nonempty}
use pocage.Json.Defs.{Value, Fields}
use pocage.Rows.{
  Status, idle, queued, assigned, running, completed as run_completed, cancelled as run_cancelled,
  failed, executor_disconnected, PermissionStatus,
}

pub data Content : Type 0 where
  text : String → Content
  image audio : Content
  resource_link : (name uri : Option String) → Content
  resource : (uri : Option String) → Content
  other : Content

pub data Update : Type 0 where
  agent_message agent_thought user_message : Content → Update
  tool_call :
      (title status : Option String) → (raw_output : Value) → (session_update : String) → Update
  plan : (entries : List String) → (session_update : String) → Update
  current_mode : (current_mode_id session_update : String) → Update
  available_commands : (commands : ℕ) → (session_update : String) → Update
  usage : Update

pub record Step : Type 0 where
  pub step_id : String
  pub summary : String
  pub detail : Option String
  pub created_at : String
  pub session_update : String
  pub data_of : Fields

pub data SegmentKind : Type 0 where
  message thought steps : SegmentKind

-- MessageStatus of models.py
pub data SegmentStatus : Type 0 where
  streaming cancelled error completed : SegmentStatus

pub record Segment : Type 0 where
  pub segment_id : String
  pub session_id : String
  pub run_id : String
  pub segment_kind : SegmentKind
  pub content : String
  pub status : SegmentStatus
  pub steps : List Step
  pub created_at : String
  pub updated_at : String

pub record UserMessage : Type 0 where
  pub message_id : String
  pub session_id : String
  pub run_id : String
  pub content : String
  pub items : List Fields
  pub created_at : String
  pub updated_at : String

-- PermissionRequestTranscriptItem
pub record PermissionItem : Type 0 where
  pub approval_id : String
  pub run_id : String
  pub session_id : String
  pub status : PermissionStatus
  pub tool_call : Fields
  pub options : List Value
  pub decision : Option PermissionStatus
  pub option_id : Option String
  pub created_at : String
  pub decided_at : Option String

-- An item of a transcript; the constructor is its `kind`.
pub data Item : Type 0 where
  assistant_segment : Segment → Item
  permission_request : PermissionItem → Item
  user_item : UserMessage → Item

-- `_segment_status`
unfoldable pub segment_status : Status → SegmentStatus
segment_status queued = streaming
segment_status assigned = streaming
segment_status running = streaming
segment_status run_cancelled = cancelled
segment_status failed = error
segment_status executor_disconnected = error
segment_status run_completed = completed
segment_status idle = completed

abbrev stripped_or : Option String → (String → String) → String → String
stripped_or none f d = d
stripped_or (some s) f d = if is_nonempty (strip s) then f (strip s) else d

-- `_content_to_text`
unfoldable pub content_to_text : Content → String
content_to_text (text t) = t
content_to_text image = "[image]"
content_to_text audio = "[audio]"
content_to_text (resource_link name uri) =
    stripped_or name (λ n. concat ("@" ∷ n ∷ [])) (stripped_or uri (λ u. u) "[resource]")
content_to_text (resource uri) = stripped_or uri (λ u. u) "[resource]"
content_to_text other = ""
