-- ===== src/Access/Codes.antt =====
-- backend/app/control_api.py: what becomes of a pairing code, whatever handlers are called.
use pocage.Prelude.{
  ℕ, String, ◌≡◌, refl, Bool, true, false, Option, none, some, List, [], ◌∷◌, ◌+◌, ◌*◌, is_some,
  Bool-cases, Option-cases, eq_iff, arith, inl, inr,
}
use pocage.Text.{concat}
use pocage.Dict
use pocage.Dict.{Dict, get-put, get-put_self}
use pocage.Access.Defs.{
  MachinePairing, Database, answered, PairingDrawn, PairingCodeCreateRequest, DaemonPairRequest,
  DaemonPairResponse, DaemonDrawn,
}
use pocage.Access.Pairing.{
  bad_code, create_pairing_code, add_daemon, pair_daemon, revoke_agent_instance,
}

-- a call of a handler that writes
pub data Call : Type 0 where
  creates : (now : ℕ) → PairingDrawn → (user_id : String) → PairingCodeCreateRequest → Call
  pairs : (now : ℕ) → DaemonDrawn → DaemonPairRequest → Call
  revokes : (now : ℕ) → (user_id agent_instance_id : String) → Call

module _ (hash_secret : String → String) where
  unfoldable pub after_calls : List Call → Database → Database
  unfolding pair_daemon create_pairing_code revoke_agent_instance
  after_calls [] db = db
  after_calls (creates now drawn user_id payload ∷ rest) db =
      after_calls rest (create_pairing_code hash_secret now drawn user_id payload db).1
  after_calls (pairs now drawn payload ∷ rest) db =
      after_calls rest (pair_daemon hash_secret now drawn payload db).1
  after_calls (revokes now user_id agent_instance_id ∷ rest) db =
      after_calls rest (revoke_agent_instance now user_id agent_instance_id db).1

-- the code is one that has been used
abbrev is_used : Option MachinePairing → Bool
is_used none = false
is_used (some pairing) = is_some pairing.consumed_at

-- a row with a used code, put anywhere, leaves the used codes used
put-is_used :
    (pairings : Dict MachinePairing) (k j : String) (pairing : MachinePairing)
    → is_some pairing.consumed_at ≡ true
    → is_used (Dict.get pairings j) ≡ true
    → is_used (Dict.get (Dict.put pairings k pairing) j) ≡ true
put-is_used pairings k j pairing h used = ground (arith, get-put pairings k j pairing)

-- so does a row under a new code
put_new-is_used :
    (pairings : Dict MachinePairing) (k j : String) (pairing : MachinePairing)
    → Dict.has pairings k ≡ false
    → is_used (Dict.get pairings j) ≡ true
    → is_used (Dict.get (Dict.put pairings k pairing) j) ≡ true
put_new-is_used pairings k j pairing h used =
    ground (arith, get-put pairings k j pairing, eq_iff k j)

module _ (hash_secret : String → String) where
  abbrev IsUsed : String → Database → Type 0
  IsUsed code db = is_used (Dict.get db.pairings (hash_secret code)) ≡ true

  pair_daemon-refuses :
      (now : ℕ) (drawn : DaemonDrawn) (payload : DaemonPairRequest) (db : Database)
      → IsUsed payload.pairing_code db
      → pair_daemon hash_secret now drawn payload db ≡ (bad_code, db)
  unfolding pair_daemon
  pair_daemon-refuses now drawn payload db h = ground arith

  pair_daemon-uses :
      (now : ℕ) (drawn : DaemonDrawn) (payload : DaemonPairRequest) (db : Database)
      (response : DaemonPairResponse)
      → (pair_daemon hash_secret now drawn payload db).0 ≡ answered response
      → IsUsed payload.pairing_code (pair_daemon hash_secret now drawn payload db).1
  unfolding pair_daemon add_daemon
  pair_daemon-uses now drawn payload db response h =
      elim (Option-cases (Dict.get db.pairings (hash_secret payload.pairing_code))) [
        | inl e ↦ ground arith
        | inr (pairing, e) ↦ ground (
          arith,
          get-put_self db.pairings (hash_secret payload.pairing_code)
              (record pairing { consumed_at = some now }),
        )
      ]

  pair_daemon-IsUsed :
      (now : ℕ) (drawn : DaemonDrawn) (payload : DaemonPairRequest) (db : Database) (code : String)
      → IsUsed code db
      → IsUsed code (pair_daemon hash_secret now drawn payload db).1
  unfolding pair_daemon add_daemon
  pair_daemon-IsUsed now drawn payload db code h =
      elim (Option-cases (Dict.get db.pairings (hash_secret payload.pairing_code))) [
        | inl e ↦ ground arith
        | inr (pairing, e) ↦ ground (
          arith,
          put-is_used db.pairings (hash_secret payload.pairing_code) (hash_secret code)
              (record pairing { consumed_at = some now }) refl h,
        )
      ]

  create_pairing_code-IsUsed :
      (now : ℕ) (drawn : PairingDrawn) (user_id : String) (payload : PairingCodeCreateRequest)
      (db : Database) (code : String)
      → IsUsed code db
      → IsUsed code (create_pairing_code hash_secret now drawn user_id payload db).1
  unfolding create_pairing_code
  create_pairing_code-IsUsed now drawn user_id payload db code h =
      let key = hash_secret (concat ("pair_" ∷ drawn.secret ∷ [])) in
      elim (Bool-cases (Dict.has db.pairings key)) [
        | inl e ↦ ground arith
        | inr e ↦ ground (
          arith,
          put_new-is_used db.pairings key (hash_secret code)
              (record {
                id = drawn.id;
                user_id = user_id;
                requested_agent = payload.agent;
                display_name = payload.display_name;
                expires_at = now + payload.ttl_minutes * 60000000;
                consumed_at = none;
              })
              e h,
        )
      ]

  revoke_agent_instance-IsUsed :
      (now : ℕ) (user_id agent_instance_id : String) (db : Database) (code : String)
      → IsUsed code db
      → IsUsed code (revoke_agent_instance now user_id agent_instance_id db).1
  unfolding revoke_agent_instance
  revoke_agent_instance-IsUsed now user_id agent_instance_id db code h = ground arith

  after_calls-IsUsed :
      (calls : List Call) (db : Database) (code : String)
      → IsUsed code db
      → IsUsed code (after_calls hash_secret calls db)
  unfolding after_calls
  after_calls-IsUsed [] db code h = h
  after_calls-IsUsed (creates now drawn user_id payload ∷ rest) db code h =
      after_calls-IsUsed rest (create_pairing_code hash_secret now drawn user_id payload db).1 code
        (create_pairing_code-IsUsed now drawn user_id payload db code h)
  after_calls-IsUsed (pairs now drawn payload ∷ rest) db code h =
      after_calls-IsUsed rest (pair_daemon hash_secret now drawn payload db).1 code
        (pair_daemon-IsUsed now drawn payload db code h)
  after_calls-IsUsed (revokes now user_id agent_instance_id ∷ rest) db code h =
      after_calls-IsUsed rest (revoke_agent_instance now user_id agent_instance_id db).1 code
        (revoke_agent_instance-IsUsed now user_id agent_instance_id db code h)

  -- Once a pairing with a code is answered, whatever handlers are called then, a pairing with the same
  -- code is refused with 401 and changes nothing.
  pub pair_daemon-once :
      (now later : ℕ) (drawn again : DaemonDrawn) (payload repeated : DaemonPairRequest)
      (db : Database) (response : DaemonPairResponse) (calls : List Call)
      → (pair_daemon hash_secret now drawn payload db).0 ≡ answered response
      → repeated.pairing_code ≡ payload.pairing_code
      → let left = after_calls hash_secret calls (pair_daemon hash_secret now drawn payload db).1 in
        pair_daemon hash_secret later again repeated left ≡ (bad_code, left)
  pair_daemon-once now later drawn again payload repeated db response calls h e =
      let left = after_calls hash_secret calls (pair_daemon hash_secret now drawn payload db).1 in
      pair_daemon-refuses later again repeated left (
        rw e (
          after_calls-IsUsed calls (pair_daemon hash_secret now drawn payload db).1
            payload.pairing_code (pair_daemon-uses now drawn payload db response h)))
