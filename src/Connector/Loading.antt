-- ===== src/Connector/Loading.antt =====
-- connector/pocage/acp_client.py: a load of a session that runs, and the calls that leave it running.
use pocage.Prelude.{
  ℕ, ◌<◌, String, ◌≡◌, refl, ap, Bool, true, false, Option, none, some, is_some, arith, eq_iff,
  ◌==◌, if◌then◌else◌, Bool-cases, Option-cases, inl, inr,
}
use pocage.Dict
use pocage.Dict.{Dict, get-put, get-pop}
use pocage.Json.Defs.{Fields}
use pocage.Json.Access.{get, nonempty_str}
use pocage.Connector.AgentClient.{
  Update, SessionReplay, apply, PromptCallbacks, AcpClient, start, new_session, load_begins,
  load_ends, sync_session, prompt_begins, collect, handle_session_update,
}

-- A load of the session runs and has collected a replay; no other load has its collector.
pub record IsLoading (client : AcpClient) (session_id : String) (k : ℕ) (replay : SessionReplay)
    : Type 0 where
  pub connected : client.is_connected ≡ true
  pub found : Dict.get client.sync_collectors session_id ≡ some k
  pub collected : client.collectors k ≡ replay
  pub used : k < client.next_collector
  pub alone :
      (id : String) → Dict.get client.sync_collectors id ≡ some k → (id == session_id) ≡ true

record_found :
    (client : AcpClient) (id s : String) (k : ℕ)
    → Dict.get client.sync_collectors s ≡ some k
    → Dict.has client.sync_collectors id ≡ false
    → (id == s) ≡ false
record_found client id s k found h = elim (Bool-cases (id == s)) [
  | inl e ↦ absurd (false_some (rw ((eq_iff id s).0 e, found) at h))
  | inr e ↦ e
]
  where
    false_some : true ≡ false → ⊥
    false_some e = cc

-- A load that begins leaves the one that runs alone.
pub load_begins-IsLoading :
    (client : AcpClient) (s id : String) (k : ℕ) (replay : SessionReplay)
    → IsLoading client s k replay
    → IsLoading (load_begins client id).0 s k replay
unfolding load_begins
load_begins-IsLoading client s id k replay h =
    elim (Bool-cases (Dict.has client.sync_collectors id)) [
      | inl e ↦ rw (load_begins, e) h
      | inr e ↦
          rw (load_begins, e, h.connected)
            (record {
              connected = refl;
              found =
                  let missing = record_found client id s k h.found e in
                  ground
                    (arith, get-put client.sync_collectors id s client.next_collector, h.found);
              collected = let used = h.used in ground (arith, h.collected);
              used = let used = h.used in omega arith;
              alone = λ j g.
                  let used = h.used in
                  ground
                    (arith, get-put client.sync_collectors id j client.next_collector, h.alone j);
            })
    ]

-- A client with the same collectors.
carry :
    (client client' : AcpClient) (s : String) (k : ℕ) (replay : SessionReplay)
    → client'.is_connected ≡ true
    → client'.sync_collectors ≡ client.sync_collectors
    → client'.collectors ≡ client.collectors
    → client'.next_collector ≡ client.next_collector
    → IsLoading client s k replay
    → IsLoading client' s k replay
carry client client' s k replay connected table objects next h = record {
  connected = connected;
  found = rw table h.found;
  collected = rw objects h.collected;
  used = rw next h.used;
  alone = λ j g. h.alone j (rw table at g);
}

pub sync_session-IsLoading :
    (client : AcpClient) (s id : String) (k : ℕ) (replay : SessionReplay)
    → IsLoading client s k replay
    → IsLoading (sync_session client id).0 s k replay
unfolding sync_session
sync_session-IsLoading client s id k replay h =
    elim (Option-cases (Dict.get client.session_replays id)) [
      | inl e ↦ rw (sync_session, e) (load_begins-IsLoading client s id k replay h)
      | inr (kept, e) ↦ rw (sync_session, e) h
    ]

pub new_session-IsLoading :
    (client : AcpClient) (s : String) (payload : Fields) (k : ℕ) (replay : SessionReplay)
    → IsLoading client s k replay
    → IsLoading (new_session client payload).0 s k replay
unfolding new_session
new_session-IsLoading client s payload k replay h =
    elim (Option-cases (nonempty_str (get payload "sessionId"))) [
      | inl e ↦ rw (new_session, h.connected, e) h
      | inr (id, e) ↦
          rw (new_session, h.connected, e) (carry client _ s k replay h.connected refl refl refl h)
    ]

pub start-IsLoading :
    (client : AcpClient) (s : String) (succeeds : Bool) (k : ℕ) (replay : SessionReplay)
    → IsLoading client s k replay
    → IsLoading (start client succeeds) s k replay
unfolding start
start-IsLoading client s succeeds k replay h =
    rw (start, h.connected) (carry client _ s k replay refl refl refl refl h)

pub prompt_begins-IsLoading :
    (client : AcpClient) (s id : String) (callbacks : PromptCallbacks) (k : ℕ)
    (replay : SessionReplay)
    → IsLoading client s k replay
    → IsLoading (prompt_begins client id callbacks).0 s k replay
unfolding prompt_begins
prompt_begins-IsLoading client s id callbacks k replay h =
    rw (prompt_begins, h.connected) (carry client _ s k replay refl refl refl refl h)

pop-IsLoading :
    (client : AcpClient) (s id : String) (k : ℕ) (replay : SessionReplay)
    → (id == s) ≡ false
    → IsLoading client s k replay
    → IsLoading (record client { sync_collectors = Dict.pop client.sync_collectors id }) s k replay
pop-IsLoading client s id k replay other h = record {
  connected = h.connected;
  found = ground (arith, get-pop client.sync_collectors id s, h.found);
  collected = h.collected;
  used = h.used;
  alone = λ j g. ground (arith, get-pop client.sync_collectors id j, h.alone j);
}

pub load_ends-IsLoading :
    (client : AcpClient) (s id : String) (collector : ℕ) (response : Option Fields) (k : ℕ)
    (replay : SessionReplay)
    → (id == s) ≡ false
    → IsLoading client s k replay
    → IsLoading (load_ends client id collector response).0 s k replay
unfolding load_ends
load_ends-IsLoading client s id collector none k replay other h =
    pop-IsLoading client s id k replay other h
load_ends-IsLoading client s id collector (some response) k replay other h =
    carry _ _ s k replay h.connected refl refl refl (pop-IsLoading client s id k replay other h)

collect-IsLoading :
    (client : AcpClient) (s id : String) (update : Update) (k j : ℕ) (replay : SessionReplay)
    → Dict.get client.sync_collectors id ≡ some j
    → IsLoading client s k replay
    → IsLoading
        (collect client (some j) update)
        s
        k
        (if id == s then apply replay update else replay)
unfolding collect
collect-IsLoading client s id update k j replay e h = record {
  connected = h.connected;
  found = h.found;
  collected = let alone = h.alone id in ground (arith, eq_iff id s, h.found, h.collected, e);
  used = h.used;
  alone = h.alone;
}

pub handle_session_update-IsLoading :
    (client : AcpClient) (s id : String) (update : Update) (k : ℕ) (replay : SessionReplay)
    → IsLoading client s k replay
    → IsLoading
        (handle_session_update client id update).0
        s
        k
        (if id == s then apply replay update else replay)
unfolding handle_session_update collect
handle_session_update-IsLoading client s id update k replay h =
    elim (Option-cases (Dict.get client.sync_collectors id)) [
      | inl e ↦
          rw (handle_session_update, e, collect)
            (rw (record_found client id s k h.found (ap is_some e)) h)
      | inr (j, e) ↦
          rw (handle_session_update, e) (collect-IsLoading client s id update k j replay e h)
    ]
