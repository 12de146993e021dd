-- ===== src/Access/Pairing.antt =====
-- backend/app/control_api.py and daemon_auth.py: the handlers.
use pocage.Prelude.{
  ℕ, String, not, ◌||◌, none, some, [], ◌∷◌, ◌==◌, ◌+◌, ◌*◌, leb, any, is_some, if◌then◌else◌,
}
use pocage.Text.{concat}
use pocage.Dict
use pocage.Dict.{Dict, get-put_self}
use pocage.Access.Defs.{
  Machine, AgentInstance, MachinePairing, MachineCredential, Database, Reply, answered, refused,
  raised, first_nonempty, PairingDrawn, PairingCodeCreateRequest, PairingCodeCreateResponse,
  DaemonPairRequest, DaemonPairResponse, DaemonDrawn, DaemonIdentity, workspace_roots_of,
  revoke_credentials,
}

abbrev pub bad_code {ℓ} : {A : Type ℓ} → Reply A
bad_code = refused 401 "Pairing code is invalid or expired."

unfoldable pub new_machine : (now : ℕ) → DaemonPairRequest → MachinePairing → Machine
new_machine now payload pairing = record {
  user_id = pairing.user_id;
  display_name = some (
      first_nonempty (payload.display_name ∷ pairing.display_name ∷ payload.hostname ∷ [])
        (concat (payload.agent ∷ " daemon" ∷ [])));
  hostname = payload.hostname;
  platform = payload.platform;
  arch = payload.arch;
  last_seen_at = some now;
  revoked_at = none;
}

unfoldable pub new_agent_instance : (now : ℕ) → DaemonDrawn → DaemonPairRequest → AgentInstance
unfolding workspace_roots_of
new_agent_instance now drawn payload = record {
  machine_id = drawn.machine_id;
  agent = payload.agent;
  daemon_id = drawn.daemon_id;
  executor_name = payload.executor_name;
  version = payload.version;
  status = "paired";
  workspace_roots = workspace_roots_of payload.workspace_roots;
  last_seen_at = some now;
  revoked_at = none;
}

unfoldable pub new_credential : (now : ℕ) → DaemonDrawn → MachineCredential
new_credential now drawn = record {
  agent_instance_id = drawn.agent_instance_id;
  key_id = drawn.key_id;
  last_used_at = some now;
  revoked_at = none;
}

module _ (hash_secret : String → String) where
  unfoldable pub create_pairing_code :
      (now : ℕ)
      → (drawn : PairingDrawn) → (user_id : String) → PairingCodeCreateRequest
      → Database
      → Reply PairingCodeCreateResponse × Database
  create_pairing_code now drawn user_id payload db =
      let pairing_code = concat ("pair_" ∷ drawn.secret ∷ []) in
      let expires_at = now + payload.ttl_minutes * 60000000 in
      if Dict.has db.pairings (hash_secret pairing_code)
        || any (λ row. row.1.id == drawn.id) db.pairings
      then (raised, db)
      else (
        answered (record {
          pairing_code = pairing_code;
          agent = payload.agent;
          expires_at = expires_at;
        }),
        record db {
          pairings = Dict.put db.pairings (hash_secret pairing_code) (record {
            id = drawn.id;
            user_id = user_id;
            requested_agent = payload.agent;
            display_name = payload.display_name;
            expires_at = expires_at;
            consumed_at = none;
          });
          audit_events =
              record {
                event_type = "machine_pairing.created";
                user_id = some user_id;
                machine_id = none;
                agent_instance_id = none;
                subject_type = some "machine_pairing";
                subject_id = some drawn.id;
                agent = payload.agent;
              }
              ∷ db.audit_events;
        },
      )

  -- the rows that a pairing which is accepted adds and changes
  unfoldable pub add_daemon :
      (now : ℕ) → (drawn : DaemonDrawn) → DaemonPairRequest → MachinePairing → Database → Database
  unfolding new_machine new_agent_instance new_credential
  add_daemon now drawn payload pairing db = record db {
    machines = Dict.put db.machines drawn.machine_id (new_machine now payload pairing);
    agent_instances =
        Dict.put db.agent_instances drawn.agent_instance_id (new_agent_instance now drawn payload);
    credentials =
        Dict.put db.credentials (hash_secret (concat ("pct_" ∷ drawn.secret ∷ [])))
          (new_credential now drawn);
    pairings =
        Dict.put db.pairings (hash_secret payload.pairing_code)
          (record pairing { consumed_at = some now });
    audit_events =
        record {
          event_type = "daemon.paired";
          user_id = some pairing.user_id;
          machine_id = some drawn.machine_id;
          agent_instance_id = some drawn.agent_instance_id;
          subject_type = some "agent_instance";
          subject_id = some drawn.agent_instance_id;
          agent = payload.agent;
        }
        ∷ db.audit_events;
  }

  unfoldable pub pair_daemon :
      (now : ℕ)
      → (drawn : DaemonDrawn) → DaemonPairRequest
      → Database
      → Reply DaemonPairResponse × Database
  unfolding add_daemon
  pair_daemon now drawn payload db =
      elim (Dict.get db.pairings (hash_secret payload.pairing_code)) [
        | none ↦ (bad_code, db)
        | some pairing ↦
            if is_some pairing.consumed_at || leb pairing.expires_at now
            then (bad_code, db)
            else if not (pairing.requested_agent == payload.agent)
            then (refused 400 "Pairing agent does not match.", db)
            else if Dict.has db.machines drawn.machine_id
                || Dict.has db.agent_instances drawn.agent_instance_id
                || Dict.has db.credentials (hash_secret (concat ("pct_" ∷ drawn.secret ∷ [])))
                || any (λ row. row.1.key_id == drawn.key_id) db.credentials
            then (raised, db)
            else (
              answered (record {
                machine_id = drawn.machine_id;
                agent_instance_id = drawn.agent_instance_id;
                daemon_id = drawn.daemon_id;
                machine_token = concat ("pct_" ∷ drawn.secret ∷ []);
                agent = payload.agent;
              }),
              add_daemon now drawn payload pairing db,
            )
      ]

  unfoldable pub authenticate_machine_token : Database → (token : String) → Reply DaemonIdentity
  authenticate_machine_token db token = elim (Dict.get db.credentials (hash_secret token)) [
    | none ↦ refused 401 "Invalid machine token."
    | some credential ↦
        if is_some credential.revoked_at
        then refused 401 "Invalid machine token."
        else (elim (Dict.get db.agent_instances credential.agent_instance_id) [
          | none ↦ raised
          | some agent_instance ↦ elim (Dict.get db.machines agent_instance.machine_id) [
            | none ↦ raised
            | some machine ↦
                if is_some agent_instance.revoked_at || agent_instance.status == "revoked"
                then refused 401 "Agent instance has been revoked."
                else if is_some machine.revoked_at
                then refused 401 "Machine has been revoked."
                else answered (record {
                  credential = credential;
                  agent_instance = agent_instance;
                  machine = machine;
                })
          ]
        ])
  ]

-- the answer is the text of `AgentInstanceRevokeResponse`
unfoldable pub revoke_agent_instance :
    (now : ℕ) → (user_id agent_instance_id : String) → Database → Reply String × Database
unfolding revoke_credentials
revoke_agent_instance now user_id agent_instance_id db =
    elim (Dict.get db.agent_instances agent_instance_id) [
      | none ↦ (refused 404 "Agent instance not found.", db)
      | some agent_instance ↦ elim (Dict.get db.machines agent_instance.machine_id) [
        | none ↦ (refused 404 "Agent instance not found.", db)
        | some machine ↦
            if machine.user_id == user_id
            then (
              answered "Agent instance revoked.",
              record db {
                agent_instances =
                    Dict.put db.agent_instances agent_instance_id
                      (record agent_instance { revoked_at = some now; status = "revoked" });
                credentials = revoke_credentials agent_instance_id now db.credentials;
                audit_events =
                    record {
                      event_type = "agent_instance.revoked";
                      user_id = some user_id;
                      machine_id = some agent_instance.machine_id;
                      agent_instance_id = some agent_instance_id;
                      subject_type = some "agent_instance";
                      subject_id = some agent_instance_id;
                      agent = agent_instance.agent;
                    }
                    ∷ db.audit_events;
              },
            )
            else (refused 404 "Agent instance not found.", db)
      ]
    ]
