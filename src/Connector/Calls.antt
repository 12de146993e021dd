-- ===== src/Connector/Calls.antt =====
-- connector/pocage/acp_client.py: histories of calls on an `AcpProcessClient`.
use pocage.Prelude.{
  ℕ, suc, ◌<◌, String, ◌≡◌, Bool, false, Option, none, some, List, [], ◌∷◌, ◌++◌, arith, ◌==◌,
  if◌then◌else◌, Bool-cases, Option-cases, inl, inr,
}
use pocage.Dict
use pocage.Dict.{Dict, get-put, get-put_self, get-pop}
use pocage.Json.Defs.{Fields}
use pocage.Connector.AgentClient.{
  Update, PromptCallbacks, AcpClient, stop, start, new_session, load_begins, load_ends,
  sync_session, prompt_begins, prompt_ends, collect, handle_session_update, new_client,
}

-- what happens to a client: calls of its methods, their ends, and updates from the agent
pub data Call : Type 0 where
  starts : (succeeds : Bool) → Call
  stops : Call
  creates : (payload : Fields) → Call
  syncs : (session_id : String) → Call
  loads : (session_id : String) → Call
  ends_load : (session_id : String) → (collector : ℕ) → (response : Option Fields) → Call
  prompts : (session_id : String) → PromptCallbacks → Call
  ends_prompt : (session_id : String) → Call
  updates : (session_id : String) → Update → Call

unfoldable pub call : AcpClient → Call → AcpClient
call client (starts succeeds) = start client succeeds
call client stops = stop client
call client (creates payload) = (new_session client payload).0
call client (syncs session_id) = (sync_session client session_id).0
call client (loads session_id) = (load_begins client session_id).0
call client (ends_load session_id collector response) =
    (load_ends client session_id collector response).0
call client (prompts session_id callbacks) = (prompt_begins client session_id callbacks).0
call client (ends_prompt session_id) = prompt_ends client session_id
call client (updates session_id update) = (handle_session_update client session_id update).0

unfoldable pub calls : AcpClient → List Call → AcpClient
calls client [] = client
calls client (c ∷ cs) = calls (call client c) cs

abbrev pub update_of : String → Call → List Update
update_of session_id (updates id update) = if id == session_id then update ∷ [] else []
update_of session_id _ = []

-- the updates of one session in a history, in order
unfoldable pub updates_of : String → List Call → List Update
updates_of session_id [] = []
updates_of session_id (c ∷ cs) = update_of session_id c ++ updates_of session_id cs

-- Neither the client is stopped, nor the load of the session ended.
unfoldable pub Continues : String → Call → Type 0
Continues session_id stops = ⊥
Continues session_id (ends_load id collector response) = (id == session_id) ≡ false
Continues session_id (updates id update) = Unit
Continues session_id (starts succeeds) = Unit
Continues session_id (creates payload) = Unit
Continues session_id (syncs id) = Unit
Continues session_id (loads id) = Unit
Continues session_id (prompts id callbacks) = Unit
Continues session_id (ends_prompt id) = Unit

-- The collectors in the table are in use.
unfoldable pub IsKnown : AcpClient → Type 0
IsKnown client =
    (id : String) (k : ℕ) → Dict.get client.sync_collectors id ≡ some k → k < client.next_collector

put-IsKnown :
    (client : AcpClient) (s : String)
    → IsKnown client
    → (id : String) (k : ℕ)
    → Dict.get (Dict.put client.sync_collectors s client.next_collector) id ≡ some k
    → k < suc client.next_collector
unfolding IsKnown
put-IsKnown client s known id k g =
    let old = known id k in
    ground (arith, get-put client.sync_collectors s id client.next_collector)

load_begins-IsKnown :
    (client : AcpClient) (s : String) → IsKnown client → IsKnown (load_begins client s).0
unfolding load_begins IsKnown
load_begins-IsKnown client s known = elim (Bool-cases (Dict.has client.sync_collectors s)) [
  | inl e ↦ rw (load_begins, e) known
  | inr e ↦ elim (Bool-cases client.is_connected) [
    | inl c ↦ rw (load_begins, e, c) (put-IsKnown client s known)
    | inr c ↦ rw (load_begins, e, c) known
  ]
]

call-IsKnown : (client : AcpClient) (c : Call) → IsKnown client → IsKnown (call client c)
unfolding call start stop new_session sync_session prompt_begins prompt_ends load_ends
    handle_session_update collect IsKnown Dict.get
call-IsKnown client (starts succeeds) known = λ id k g. let old = known id k in ground arith
call-IsKnown client stops known = λ id k g. cc
call-IsKnown client (creates payload) known = λ id k g. let old = known id k in ground arith
call-IsKnown client (syncs s) known = elim (Option-cases (Dict.get client.session_replays s)) [
  | inl e ↦ rw (call, sync_session, e) (load_begins-IsKnown client s known)
  | inr (kept, e) ↦ rw (call, sync_session, e) known
]
call-IsKnown client (loads s) known = load_begins-IsKnown client s known
call-IsKnown client (ends_load s collector none) known =
    λ id k g. let old = known id k in ground (arith, get-pop client.sync_collectors s id)
call-IsKnown client (ends_load s collector (some response)) known =
    λ id k g. let old = known id k in ground (arith, get-pop client.sync_collectors s id)
call-IsKnown client (prompts s callbacks) known = λ id k g. let old = known id k in ground arith
call-IsKnown client (ends_prompt s) known = known
call-IsKnown client (updates s update) known =
    elim (Option-cases (Dict.get client.sync_collectors s)) [
      | inl e ↦ rw (call, handle_session_update, e, collect) known
      | inr (j, e) ↦ rw (call, handle_session_update, e, collect) known
    ]

pub calls-IsKnown :
    (client : AcpClient) (cs : List Call) → IsKnown client → IsKnown (calls client cs)
unfolding calls
calls-IsKnown client [] known = known
calls-IsKnown client (c ∷ cs) known = calls-IsKnown (call client c) cs (call-IsKnown client c known)

pub new_client-IsKnown : IsKnown new_client
unfolding IsKnown new_client Dict.get
new_client-IsKnown id k g = cc
