-- ===== src/Access/Tokens.antt =====
-- backend/app/daemon_auth.py with control_api.py: whom the token of a machine lets in.
use pocage.Prelude.{
  ℕ, String, ◌≡◌, refl, ap, ◌∙◌, Bool, false, none, some, [], ◌∷◌, ◌==◌, if◌then◌else◌,
  Option-cases, eq_iff, arith, inl, inr, sym,
}
use pocage.Text.{concat}
use pocage.Dict
use pocage.Dict.{Dict, get-put, get-put_self}
use pocage.Access.Defs.{
  MachinePairing, MachineCredential, Database, Reply, answered, refused, raised, DaemonPairRequest,
  DaemonPairResponse, DaemonDrawn, DaemonIdentity, revoke_credentials,
}
use pocage.Access.Pairing.{
  new_machine, new_agent_instance, new_credential, add_daemon, pair_daemon,
  authenticate_machine_token, revoke_agent_instance,
}

abbrev revoked_row :
    (agent_instance_id : String) → (now : ℕ) → MachineCredential → MachineCredential
revoked_row agent_instance_id now credential =
    if credential.agent_instance_id == agent_instance_id
    then record credential { revoked_at = some now }
    else credential

get-revoke_credentials :
    (agent_instance_id : String) (now : ℕ) (credentials : Dict MachineCredential) (key : String)
    → Dict.get (revoke_credentials agent_instance_id now credentials) key
      ≡ elim (Dict.get credentials key) [
        | none ↦ none
        | some credential ↦ some (revoked_row agent_instance_id now credential)
      ]
unfolding revoke_credentials Dict.get
get-revoke_credentials agent_instance_id now [] key = refl
get-revoke_credentials agent_instance_id now ((k, credential) ∷ rest) key =
    ground (arith, get-revoke_credentials agent_instance_id now rest key)

abbrev answer_or {ℓ} : {A : Type ℓ} → A → Reply A → A
answer_or other (answered x) = x
answer_or other (refused status_code detail) = other
answer_or other raised = other

-- the identity is the one that the answer to the daemon names
pub record IsOf (response : DaemonPairResponse) (identity : DaemonIdentity) : Type 0 where
  pub agent_instance_id : identity.credential.agent_instance_id ≡ response.agent_instance_id
  pub machine_id : identity.agent_instance.machine_id ≡ response.machine_id
  pub daemon_id : identity.agent_instance.daemon_id ≡ response.daemon_id
  pub agent : identity.agent_instance.agent ≡ response.agent

module _ (hash_secret : String → String) where
  -- the token is one of the agent
  unfoldable pub belongs_to : Database → (token agent_instance_id : String) → Bool
  belongs_to db token agent_instance_id = elim (Dict.get db.credentials (hash_secret token)) [
    | none ↦ false
    | some credential ↦ credential.agent_instance_id == agent_instance_id
  ]

  -- Once the revocation of an agent is answered, each of the agent's tokens is refused with 401, and
  -- every other token gets the answer that it got before.
  pub authenticate_machine_token-revoke_agent_instance :
      (now : ℕ) (user_id agent_instance_id token answer : String) (db : Database)
      → (revoke_agent_instance now user_id agent_instance_id db).0 ≡ answered answer
      → authenticate_machine_token hash_secret
          (revoke_agent_instance now user_id agent_instance_id db).1
          token
        ≡ (if belongs_to db token agent_instance_id
            then refused 401 "Invalid machine token."
            else authenticate_machine_token hash_secret db token)
  unfolding revoke_agent_instance authenticate_machine_token belongs_to
  authenticate_machine_token-revoke_agent_instance now user_id agent_instance_id token answer db h =
      elim (Option-cases (Dict.get db.agent_instances agent_instance_id)) [
        | inl e ↦ ground arith
        | inr (row, e) ↦ elim (Option-cases (Dict.get db.credentials (hash_secret token))) [
          | inl f ↦ ground (
            arith,
            get-revoke_credentials agent_instance_id now db.credentials (hash_secret token),
          )
          | inr (credential, f) ↦ ground (
            arith,
            get-revoke_credentials agent_instance_id now db.credentials (hash_secret token),
            eq_iff agent_instance_id credential.agent_instance_id,
            eq_iff credential.agent_instance_id agent_instance_id,
            get-put db.agent_instances agent_instance_id credential.agent_instance_id
                (record row { revoked_at = some now; status = "revoked" }),
          )
        ]
      ]

  abbrev response_of : DaemonDrawn → DaemonPairRequest → DaemonPairResponse
  response_of drawn payload = record {
    machine_id = drawn.machine_id;
    agent_instance_id = drawn.agent_instance_id;
    daemon_id = drawn.daemon_id;
    machine_token = concat ("pct_" ∷ drawn.secret ∷ []);
    agent = payload.agent;
  }

  -- a pairing that is answered adds the rows of `add_daemon`
  pair_daemon-answered :
      (now : ℕ) (drawn : DaemonDrawn) (payload : DaemonPairRequest) (db : Database)
      (response : DaemonPairResponse)
      → (pair_daemon hash_secret now drawn payload db).0 ≡ answered response
      → (pairing : MachinePairing) × (pair_daemon hash_secret now drawn payload db ≡ (
        answered (response_of drawn payload),
        add_daemon hash_secret now drawn payload pairing db,
      ))
  unfolding pair_daemon
  pair_daemon-answered now drawn payload db response h =
      elim (Option-cases (Dict.get db.pairings (hash_secret payload.pairing_code))) [
        | inl e ↦ absurd (ground arith)
        | inr (pairing, e) ↦ (pairing, ground arith)
      ]

  authenticate_machine_token-add_daemon :
      (now : ℕ) (drawn : DaemonDrawn) (payload : DaemonPairRequest) (pairing : MachinePairing)
      (db : Database)
      → (identity : DaemonIdentity) × (authenticate_machine_token hash_secret
            (add_daemon hash_secret now drawn payload pairing db)
            (concat ("pct_" ∷ drawn.secret ∷ []))
          ≡ answered identity)
        × IsOf (response_of drawn payload) identity
  unfolding add_daemon new_credential new_agent_instance new_machine authenticate_machine_token
  authenticate_machine_token-add_daemon now drawn payload pairing db = (
    record {
      credential = new_credential now drawn;
      agent_instance = new_agent_instance now drawn payload;
      machine = new_machine now payload pairing;
    },
    rw (authenticate_machine_token, add_daemon, get-put_self, get-put_self, get-put_self) refl,
    record { agent_instance_id = refl; machine_id = refl; daemon_id = refl; agent = refl },
  )

  -- Once a pairing is answered, the token of the answer lets its bearer in, as the agent, the machine
  -- and the daemon that the answer names.
  pub authenticate_machine_token-pair_daemon :
      (now : ℕ) (drawn : DaemonDrawn) (payload : DaemonPairRequest) (db : Database)
      (response : DaemonPairResponse)
      → (pair_daemon hash_secret now drawn payload db).0 ≡ answered response
      → (identity : DaemonIdentity) × (authenticate_machine_token hash_secret
            (pair_daemon hash_secret now drawn payload db).1
            response.machine_token
          ≡ answered identity)
        × IsOf response identity
  unfolding pair_daemon add_daemon authenticate_machine_token
  authenticate_machine_token-pair_daemon now drawn payload db response h =
      let (pairing, e) = pair_daemon-answered now drawn payload db response h in
      let same_answer : Path (Reply DaemonPairResponse) (answered (response_of drawn payload))
          (answered response) =
        sym (ap (λ x. x.0) e) ∙ h in
      let same_response : response_of drawn payload ≡ response =
        ap (answer_or response) same_answer in
      rw e
        (rw (← same_response) (authenticate_machine_token-add_daemon now drawn payload pairing db))
