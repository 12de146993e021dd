-- ===== src/Runtime/State.antt =====
-- backend/app/runtime_state.py: the data of `RuntimeState`. The lock makes each method one step. A
-- time stamp is the text that `utc_now` returns; `now` and fresh ids are arguments of the methods.
use pocage.Prelude.{ℕ, String, Option, none, some, List, [], leb, if◌then◌else◌}
use pocage.Dict.{Dict}
pub use pocage.Rows.{
  Status, idle, queued, assigned, running, completed, cancelled, failed, executor_disconnected,
  is_active, is_terminal, is_queued, RunEvent, PermissionStatus, pending, selected,
  PermissionRequest, text_le,
}
use pocage.Transcript.Defs.{Item}
use pocage.Json.Defs.{Value, Fields}

pub record RuntimeRun : Type 0 where
  pub run_id : String
  pub session_id : String
  pub daemon_id : String
  pub cwd : String
  pub content : String
  pub prompt_items : List Fields
  pub mcp_servers : List Value
  pub user_content : String
  pub user_message_id : String
  pub assistant_message_id : String
  pub created_at : String
  pub updated_at : String
  pub status : Status
  pub executor_id : Option String
  pub error_code : Option String
  pub error_message : Option String
  pub terminal_at : Option String

-- the dict of a session
pub record Session : Type 0 where
  pub id : String
  pub title : String
  pub cwd : String
  pub agent_instance_id : Option String
  pub daemon_id : String
  pub status : Status
  pub mcp_servers : List Value
  pub remote_updated_at : String
  pub created_at : String
  pub updated_at : String
  pub executor_id : Option String

pub record RemoteTranscriptCache : Type 0 where
  pub items : List Item
  pub cached_at : String
  pub payload_bytes : ℕ
  pub remote_updated_at : Option String

pub record Limits : Type 0 where
  pub max_events_per_run : ℕ
  pub max_event_payload_bytes : ℕ
  pub completed_run_ttl_seconds : ℕ
  pub max_local_runs_per_session : ℕ
  pub remote_transcript_ttl_seconds : ℕ

pub record RuntimeState : Type 0 where
  pub limits : Limits
  pub sessions : Dict Session
  pub daemon_sessions : Dict (List String)
  pub runs : Dict RuntimeRun
  pub queued_runs : List String
  pub run_events : Dict (List RunEvent)
  pub run_event_seq : Dict ℕ
  pub permission_requests : Dict (Dict PermissionRequest)
  pub remote_transcript_items : Dict RemoteTranscriptCache

-- max(1, int(n))
abbrev pub at_least_one : ℕ → ℕ
at_least_one n = if leb 1 n then n else 1

-- `or completed_run_ttl_seconds`: 0 and None both fall back
abbrev ttl_or : Option ℕ → ℕ → ℕ
ttl_or none d = d
ttl_or (some n) d = if leb 1 n then n else d

-- `RuntimeState.__init__`
unfoldable pub new_runtime : ℕ → ℕ → ℕ → ℕ → Option ℕ → RuntimeState
new_runtime events payload ttl local remote_ttl = record {
  limits = record {
    max_events_per_run = at_least_one events;
    max_event_payload_bytes = at_least_one payload;
    completed_run_ttl_seconds = at_least_one ttl;
    max_local_runs_per_session = at_least_one local;
    remote_transcript_ttl_seconds = at_least_one (ttl_or remote_ttl ttl);
  };
  sessions = [];
  daemon_sessions = [];
  runs = [];
  queued_runs = [];
  run_events = [];
  run_event_seq = [];
  permission_requests = [];
  remote_transcript_items = [];
}
