-- ===== src/Access/Defs.antt =====
-- backend/app/db_models.py, control_api.py and daemon_auth.py: the tables and the handlers. A table
-- with a unique key is a dict by that key. A handler that raises commits nothing. `hash_secret` is the
-- one of security.py; the ids and secrets that a handler draws are its argument `drawn`, and `now` is
-- in microseconds.
use pocage.Prelude.{ℕ, String, Option, none, some, List, [], ◌∷◌, ◌==◌, if◌then◌else◌}
use pocage.Text.{strip, is_nonempty}
use pocage.Dict.{Dict}

pub record Machine : Type 0 where
  pub user_id : String
  pub display_name : Option String
  pub hostname : Option String
  pub platform : Option String
  pub arch : Option String
  pub last_seen_at : Option ℕ
  pub revoked_at : Option ℕ

pub record AgentInstance : Type 0 where
  pub machine_id : String
  pub agent : String
  pub daemon_id : String
  pub executor_name : Option String
  pub version : Option String
  pub status : String
  pub workspace_roots : List String
  pub last_seen_at : Option ℕ
  pub revoked_at : Option ℕ

pub record MachinePairing : Type 0 where
  pub id : String
  pub user_id : String
  pub requested_agent : String
  pub display_name : Option String
  pub expires_at : ℕ
  pub consumed_at : Option ℕ

pub record MachineCredential : Type 0 where
  pub agent_instance_id : String
  pub key_id : String
  pub last_used_at : Option ℕ
  pub revoked_at : Option ℕ

pub record AuditEvent : Type 0 where
  pub event_type : String
  pub user_id : Option String
  pub machine_id : Option String
  pub agent_instance_id : Option String
  pub subject_type : Option String
  pub subject_id : Option String
  pub agent : String

-- machines and agents by their id, pairings by their code's hash, credentials by their token's hash
pub record Database : Type 0 where
  pub machines : Dict Machine
  pub agent_instances : Dict AgentInstance
  pub pairings : Dict MachinePairing
  pub credentials : Dict MachineCredential
  pub audit_events : List AuditEvent

-- an answer, HTTPException, or another exception: of the database, for a unique key that is there
-- already, or for a row that a foreign key names and that is not there
pub data Reply {ℓ} (A : Type ℓ) : Type ℓ where
  answered : A → Reply A
  refused : (status_code : ℕ) → (detail : String) → Reply A
  raised : Reply A

-- the first that is not empty, else the last: Python's `or`
abbrev pub first_nonempty : List (Option String) → String → String
first_nonempty [] last = last
first_nonempty (none ∷ rest) last = first_nonempty rest last
first_nonempty (some s ∷ rest) last = if is_nonempty s then s else first_nonempty rest last

pub record PairingDrawn : Type 0 where
  pub id : String
  pub secret : String

pub record PairingCodeCreateRequest : Type 0 where
  pub agent : String
  pub display_name : Option String
  pub ttl_minutes : ℕ

pub record PairingCodeCreateResponse : Type 0 where
  pub pairing_code : String
  pub agent : String
  pub expires_at : ℕ

pub record DaemonPairRequest : Type 0 where
  pub pairing_code : String
  pub agent : String
  pub executor_name : Option String
  pub display_name : Option String
  pub hostname : Option String
  pub platform : Option String
  pub arch : Option String
  pub version : Option String
  pub workspace_roots : List String

pub record DaemonPairResponse : Type 0 where
  pub machine_id : String
  pub agent_instance_id : String
  pub daemon_id : String
  pub machine_token : String
  pub agent : String

pub record DaemonDrawn : Type 0 where
  pub machine_id : String
  pub agent_instance_id : String
  pub daemon_id : String
  pub key_id : String
  pub secret : String

pub record DaemonIdentity : Type 0 where
  pub credential : MachineCredential
  pub agent_instance : AgentInstance
  pub machine : Machine

unfoldable pub workspace_roots_of : List String → List String
workspace_roots_of [] = []
workspace_roots_of (root ∷ roots) =
    let rest = workspace_roots_of roots in
    if is_nonempty (strip root) then strip root ∷ rest else rest

-- the loop of `revoke_agent_instance` over the credentials
unfoldable pub revoke_credentials :
    (agent_instance_id : String) → (now : ℕ) → Dict MachineCredential → Dict MachineCredential
revoke_credentials agent_instance_id now [] = []
revoke_credentials agent_instance_id now ((key, credential) ∷ rest) =
    let others = revoke_credentials agent_instance_id now rest in
    if credential.agent_instance_id == agent_instance_id
    then (key, record credential { revoked_at = some now }) ∷ others
    else (key, credential) ∷ others
