-- ===== src/Access/Examples.antt =====
-- backend/app/control_api.py and daemon_auth.py: the theorems on codes and tokens at concrete rows.
use pocage.Prelude.{String, ◌≡◌, refl, none, some, [], ◌∷◌}
use pocage.Text.{concat}
use pocage.Dict
use pocage.Dict.{Dict}
use pocage.Access.Defs.{
  Database, answered, refused, DaemonIdentity, DaemonDrawn, DaemonPairRequest, DaemonPairResponse,
}
use pocage.Access.Pairing.{
  bad_code, add_daemon, pair_daemon, authenticate_machine_token, revoke_agent_instance,
}
use pocage.Access.Codes.{after_calls, revokes, pair_daemon-once}
use pocage.Access.Tokens.{
  belongs_to, IsOf, authenticate_machine_token-revoke_agent_instance,
  authenticate_machine_token-pair_daemon,
}

abbrev hashed : String → String
hashed s = concat ("#" ∷ s ∷ [])

abbrev offered : Database
offered = record {
  machines = [];
  agent_instances = [];
  pairings =
      (
        "#pair_c",
        record {
          id = "p1";
          user_id = "u1";
          requested_agent = "codex";
          display_name = none;
          expires_at = 10;
          consumed_at = none;
        },
      )
      ∷ [];
  credentials = [];
  audit_events = [];
}

abbrev drawn : DaemonDrawn
drawn = record {
  machine_id = "m1";
  agent_instance_id = "a1";
  daemon_id = "d1";
  key_id = "k1";
  secret = "s1";
}

abbrev drawn_later : DaemonDrawn
drawn_later = record {
  machine_id = "m2";
  agent_instance_id = "a2";
  daemon_id = "d2";
  key_id = "k2";
  secret = "s2";
}

abbrev request : DaemonPairRequest
request = record {
  pairing_code = "pair_c";
  agent = "codex";
  executor_name = none;
  display_name = none;
  hostname = some "host";
  platform = none;
  arch = none;
  version = none;
  workspace_roots = "/w" ∷ [];
}

abbrev response : DaemonPairResponse
response = record {
  machine_id = "m1";
  agent_instance_id = "a1";
  daemon_id = "d1";
  machine_token = "pct_s1";
  agent = "codex";
}

abbrev paired : Database
paired = (pair_daemon hashed 5 drawn request offered).1

offered-answers : (pair_daemon hashed 5 drawn request offered).0 ≡ answered response
unfolding pair_daemon concat Dict.get Dict.put
offered-answers = refl

paired-revokes : (revoke_agent_instance 6 "u1" "a1" paired).0 ≡ answered "Agent instance revoked."
unfolding revoke_agent_instance pair_daemon add_daemon concat Dict.get Dict.put
paired-revokes = refl

pair_daemon-once_example :
    let left = after_calls hashed (revokes 6 "u1" "a1" ∷ []) paired in
    pair_daemon hashed 7 drawn_later request left ≡ (bad_code, left)
pair_daemon-once_example =
    pair_daemon-once hashed 5 7 drawn drawn_later request request offered response
      (revokes 6 "u1" "a1" ∷ []) offered-answers refl

authenticate_machine_token-revoke_agent_instance_example :
    authenticate_machine_token hashed (revoke_agent_instance 6 "u1" "a1" paired).1 "pct_s1"
    ≡ refused 401 "Invalid machine token."
unfolding belongs_to pair_daemon add_daemon concat Dict.get Dict.put
authenticate_machine_token-revoke_agent_instance_example =
    authenticate_machine_token-revoke_agent_instance hashed 6 "u1" "a1" "pct_s1"
      "Agent instance revoked." paired paired-revokes

authenticate_machine_token-pair_daemon_example :
    (identity : DaemonIdentity) × (authenticate_machine_token hashed paired "pct_s1"
      ≡ answered identity)
    × IsOf response identity
authenticate_machine_token-pair_daemon_example =
    authenticate_machine_token-pair_daemon hashed 5 drawn request offered response offered-answers
