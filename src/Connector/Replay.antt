-- ===== src/Connector/Replay.antt =====
-- connector/pocage/acp_client.py: the updates that a load of a session collects in a history of calls.
use pocage.Prelude.{
  ℕ, String, ◌≡◌, refl, ap, subst, ◌∙◌, true, false, some, List, [], ◌∷◌, All, arith, eq_iff,
  eq_refl,
}
use pocage.Text.{concat}
use pocage.Dict
use pocage.Dict.{Dict, get-put, get-put_self, get-pop}
use pocage.Json.Defs.{Fields}
use pocage.Connector.Collected.{apply_all, apply_all-append, collected, apply_all-new_replay}
use pocage.Connector.Loading.{
  IsLoading, load_begins-IsLoading, sync_session-IsLoading, new_session-IsLoading, start-IsLoading,
  prompt_begins-IsLoading, load_ends-IsLoading, handle_session_update-IsLoading,
}
use pocage.Connector.AgentClient.{
  SessionReplay, new_replay, AcpClient, returns, raises, load_begins, replay_payload, load_ends,
  cached, sync_session, prompt_ends, new_client,
}
use pocage.Connector.Calls.{
  Call, starts, stops, creates, syncs, loads, ends_load, prompts, ends_prompt, updates, call, calls,
  update_of, updates_of, Continues, IsKnown, calls-IsKnown, new_client-IsKnown,
}

call-IsLoading :
    (client : AcpClient) (s : String) (k : ℕ) (replay : SessionReplay) (c : Call)
    → Continues s c
    → IsLoading client s k replay
    → IsLoading (call client c) s k (apply_all replay (update_of s c))
unfolding call Continues prompt_ends
call-IsLoading client s k replay (starts succeeds) g h =
    start-IsLoading client s succeeds k replay h
call-IsLoading client s k replay stops g h = absurd g
call-IsLoading client s k replay (creates payload) g h =
    new_session-IsLoading client s payload k replay h
call-IsLoading client s k replay (syncs id) g h = sync_session-IsLoading client s id k replay h
call-IsLoading client s k replay (loads id) g h = load_begins-IsLoading client s id k replay h
call-IsLoading client s k replay (ends_load id collector response) g h =
    load_ends-IsLoading client s id collector response k replay g h
call-IsLoading client s k replay (prompts id callbacks) g h =
    prompt_begins-IsLoading client s id callbacks k replay h
call-IsLoading client s k replay (ends_prompt id) g h = record {
  connected = h.connected;
  found = h.found;
  collected = h.collected;
  used = h.used;
  alone = h.alone;
}
call-IsLoading client s k replay (updates id update) g h =
    subst (IsLoading _ s k) (ground arith)
      (handle_session_update-IsLoading client s id update k replay h)

calls-IsLoading :
    (client : AcpClient) (s : String) (k : ℕ) (replay : SessionReplay) (cs : List Call)
    → All (Continues s) cs
    → IsLoading client s k replay
    → IsLoading (calls client cs) s k (apply_all replay (updates_of s cs))
unfolding calls updates_of
calls-IsLoading client s k replay [] g h = h
calls-IsLoading client s k replay (c ∷ cs) g h =
    subst (IsLoading _ s k) (apply_all-append replay (update_of s c) (updates_of s cs))
      (calls-IsLoading (call client c) s k _ cs g.1 (call-IsLoading client s k replay c g.0 h))

load_begins-starts :
    (client : AcpClient) (s : String)
    → IsKnown client
    → client.is_connected ≡ true
    → Dict.has client.sync_collectors s ≡ false
    → IsLoading (load_begins client s).0 s client.next_collector (new_replay s)
unfolding load_begins IsKnown
load_begins-starts client s known connected free =
    rw (load_begins, free, connected)
      (record {
        connected = refl;
        found = get-put_self client.sync_collectors s client.next_collector;
        collected = ground arith;
        used = omega arith;
        alone = λ id g.
            let fresh = known id client.next_collector in
            ground (
              arith,
              get-put client.sync_collectors s id client.next_collector,
              eq_iff s id,
              eq_refl id,
            );
      })

load_ends-kept :
    (client : AcpClient) (s : String) (k : ℕ) (response : Fields)
    → (sync_session (load_ends client s k (some response)).0 s).1
      ≡ returns (cached (replay_payload (record (client.collectors k) { session_id = s })))
unfolding load_ends sync_session
load_ends-kept client s k response =
    rw
      (
        sync_session,
        get-put_self client.session_replays s (record (client.collectors k) { session_id = s }),
      )
      refl

load_begins-raises :
    (client : AcpClient) (s : String) (k : ℕ) (replay : SessionReplay)
    → IsLoading client s k replay
    → load_begins client s ≡ (client, raises (concat ("session load already running: " ∷ s ∷ [])))
unfolding load_begins
load_begins-raises client s k replay h = rw (load_begins, h.found) refl

-- A load that begins after any history, and what it has collected after another.
running :
    (before after : List Call) (s : String)
    → let client = calls new_client before in
      client.is_connected ≡ true
      → Dict.has client.sync_collectors s ≡ false
      → All (Continues s) after
      → IsLoading
          (calls (load_begins client s).0 after)
          s
          client.next_collector
          (collected s (updates_of s after))
running before after s connected free continues =
    let client = calls new_client before in
    subst (IsLoading _ s _) (apply_all-new_replay s (updates_of s after)) (
      calls-IsLoading (load_begins client s).0 s client.next_collector (new_replay s) after
        continues
        (load_begins-starts client s (calls-IsKnown new_client before new_client-IsKnown) connected
          free))

-- After any history that leaves the client connected and no load of the session running, let a load
-- of it begin, any calls follow that neither stop the client nor end the load, and the load end with
-- an answer. Then `sync_session` gives at once the updates of the session in those calls: the last
-- title and time, and the other updates in order.
pub sync_session-collected :
    (before after : List Call) (s : String) (response : Fields)
    → let client = calls new_client before in
      client.is_connected ≡ true
      → Dict.has client.sync_collectors s ≡ false
      → All (Continues s) after
      → (sync_session
          (load_ends
            (calls (load_begins client s).0 after)
            s
            client.next_collector
            (some response)).0
          s).1
        ≡ returns (cached (replay_payload (collected s (updates_of s after))))
unfolding collected
sync_session-collected before after s response connected free continues =
    let client = calls new_client before in
    load_ends-kept _ s client.next_collector response
    ∙ ap (λ replay. returns (cached (replay_payload (record replay { session_id = s }))))
        (running before after s connected free continues).collected

-- While a load of a session runs, another one raises and leaves the client as it is: after any
-- history that leaves the client connected and no load of the session running, a load of it, and any
-- calls that neither stop the client nor end the load.
pub load_begins-running :
    (before after : List Call) (s : String)
    → let client = calls new_client before in
      client.is_connected ≡ true
      → Dict.has client.sync_collectors s ≡ false
      → All (Continues s) after
      → let client' = calls (load_begins client s).0 after in
        load_begins client' s
        ≡ (client', raises (concat ("session load already running: " ∷ s ∷ [])))
load_begins-running before after s connected free continues =
    load_begins-raises _ s _ _ (running before after s connected free continues)
