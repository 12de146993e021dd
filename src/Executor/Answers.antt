-- ===== src/Executor/Answers.antt =====
-- backend/app/executor_manager.py and models.py: the data that a daemon answers to the requests of
-- `ExecutorManager`, and the rows of the table of session pointers.
use pocage.Prelude.{String, Option, List}
use pocage.Json.Defs.{Value, Fields, str, to_fields}
use pocage.Prelude.{[], ◌∷◌}

pub record RemoteSessionItem : Type 0 where
  pub session_id : String
  pub cwd : String
  pub title : String
  pub updated_at : String

-- item.model_dump(mode="json")
unfoldable pub item_fields : RemoteSessionItem → Fields
item_fields item = to_fields (
    ("session_id", str item.session_id)
    ∷ ("cwd", str item.cwd)
    ∷ ("title", str item.title)
    ∷ ("updated_at", str item.updated_at)
    ∷ [])

pub record SessionCreateResultPayload : Type 0 where
  pub request_id : String
  pub session : Option RemoteSessionItem
  pub error_message : Option String

pub record SessionListResultPayload : Type 0 where
  pub request_id : String
  pub items : List RemoteSessionItem
  pub next_cursor : Option String
  pub error_message : Option String

pub record SessionSyncResultPayload : Type 0 where
  pub request_id : String
  pub session_id : String
  pub title : Option String
  pub updated_at : Option String
  pub session_updates : List Fields
  pub error_message : Option String

pub record ContextSearchResultPayload : Type 0 where
  pub request_id : String
  pub items : List Value
  pub error_message : Option String

-- a page of a daemon's sessions
pub record Page : Type 0 where
  pub items : List Fields
  pub next_cursor : Option String

pub record SyncResult : Type 0 where
  pub session_id : String
  pub title : Option String
  pub updated_at : Option String
  pub session_updates : List Fields

-- a row of the table, but for its keys
pub record SessionPointer : Type 0 where
  pub title_hint : Option String
  pub cwd_hash : Option String
  pub status : String
  pub last_seen_at : String
