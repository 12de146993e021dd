-- ===== src/Connector/Examples.antt =====
-- connector/pocage: the theorems with a prompt of three items, two servers, a session that is loaded
-- and two runs that ask for permissions.
use pocage.Text.{strip, concat}
use pocage.Text.Search.{has_char}
use pocage.Dict
use pocage.Prelude.{◌++◌, String, ◌≡◌, refl, none, some, true, List, [], ◌∷◌, map}
use pocage.Json.Defs.{Value, Fields, null, nat, str, arr, obj, end, field}
use pocage.Waiters.{done_with, settled, lookup, open_waiter, settle, no_waiters}
use pocage.Waiters.Evolves.{is_done}
use pocage.Json.Access.{get, truthy}
use pocage.Connector.PromptItems.{
  ContentBlock, text_block, image_block, resource_link_block, normalize_prompt_items,
}
use pocage.Connector.PromptItemsRead.{IsPlain, block_item, normalize_prompt_items-block_item}
use pocage.Connector.PromptItemsTotal.{normalize_prompt_items-returns}
use pocage.Connector.McpServers.{
  NamedValue, McpServer, http_server, stdio_server, named_values, normalize_mcp_servers,
}
use pocage.Connector.McpServersRead.{
  IsComplete, server_value, normalize_mcp_servers-server_value, as_list, named_values-as_list,
}
use pocage.Connector.Connection.{
  Failure, connection_closed, other, policy_violation_message, returned, stopped, run_forever,
}
use pocage.Connector.Backoff.{failing, doubling, run_forever-failures}
use pocage.Connector.AgentClient.{
  handle_session_update, collect, start, Update, PromptCallbacks, load_begins, load_ends,
  sync_session, returns, raises, cached, replay_payload, new_client,
}
use pocage.Connector.Collected.{collected}
use pocage.Connector.Calls.{
  Call, call, Continues, starts, prompts, updates, loads, calls, updates_of,
}
use pocage.Connector.Replay.{sync_session-collected, load_begins-running}
use pocage.Connector.Steps.{Step, step, accepts, requests, decides, finishes, steps, new_executor}
use pocage.Connector.Executor.{
  selected, cancelled, permission_requested, text_or_empty, run_accepted, PocageExecutor,
  stop_executor, handle_permission_decision, message_decision, cancel_permission_waiters,
  backend_connection_closed,
}
use pocage.Connector.Decisions.{
  decision_message, cancel_permission_waiters-settles, backend_connection_closed-settles,
  decision-answers,
}

abbrev image : ContentBlock
image = image_block "aGk=" "image/png" (some "a.png")

abbrev blocks : List ContentBlock
blocks = image ∷ resource_link_block "notes" "file:///notes" none ∷ []

normalize_prompt_items-block_item_example :
    normalize_prompt_items "" (map block_item (text_block "hello" ∷ blocks))
    ≡ some (text_block "hello" ∷ blocks)
unfolding IsPlain strip has_char
normalize_prompt_items-block_item_example =
    normalize_prompt_items-block_item (text_block "hello") blocks
      ((refl, refl), ((refl, refl, refl), (((refl, refl), refl), tt)))

normalize_prompt_items-returns_example :
    (first : ContentBlock) × (rest : List ContentBlock) × (normalize_prompt_items " "
        (block_item image ∷ null ∷ str "x" ∷ [])
      ≡ some (first ∷ rest))
normalize_prompt_items-returns_example =
    normalize_prompt_items-returns " " (block_item image ∷ null ∷ str "x" ∷ [])

abbrev token : NamedValue
token = record { name = "Authorization"; value = "Bearer t" }

abbrev servers : List McpServer
servers =
    http_server "docs" "https://docs" (token ∷ []) ∷ stdio_server "files" "mcp" ("-v" ∷ []) [] ∷ []

normalize_mcp_servers-server_value_example :
    normalize_mcp_servers (map server_value servers) ≡ servers
unfolding IsComplete
normalize_mcp_servers-server_value_example =
    normalize_mcp_servers-server_value servers ((refl, refl), ((refl, refl), tt))

abbrev headers : Fields
headers = field "Authorization" (str "Bearer t") (field "Retries" (nat 3) end)

named_values-as_list_example : named_values (obj headers) ≡ named_values (arr (as_list headers))
named_values-as_list_example = named_values-as_list headers

abbrev lower : String → String
lower s = s

abbrev going_away : Failure
going_away = connection_closed (some (record { code = 1001; reason = "bye" })) none

abbrev dump : String → Fields
dump s = field "text" (str s) end

abbrev plain : String → Update
plain s = record { info = none; dump = dump s }

abbrev titled : String → Update
titled s = record { info = some (some s, none); dump = dump s }

abbrev callbacks : PromptCallbacks
callbacks = record { run_id = "r"; session_id = "s" }

abbrev before_load : List Call
before_load = starts true ∷ updates "s" (plain "early") ∷ loads "t" ∷ []

abbrev while_loading : List Call
while_loading =
    updates "s" (plain "a")
    ∷ prompts "t" callbacks
    ∷ updates "s" (titled "Title")
    ∷ updates "t" (plain "b")
    ∷ loads "s"
    ∷ updates "s" (plain "c")
    ∷ []

sync_session-collected_example :
    let client = calls new_client before_load in
    (sync_session
      (load_ends
        (calls (load_begins client "s").0 while_loading)
        "s"
        client.next_collector
        (some end)).0
      "s").1
    ≡ returns (cached (replay_payload (collected "s" (updates_of "s" while_loading))))
unfolding calls call load_begins Dict.get Dict.put handle_session_update collect start new_client
    Continues
sync_session-collected_example =
    sync_session-collected before_load while_loading "s" end refl refl
      (tt, (tt, (tt, (tt, (tt, (tt, tt))))))

load_begins-running_example :
    let client = calls (load_begins (calls new_client before_load) "s").0 while_loading in
    load_begins client "s" ≡ (client, raises "session load already running: s")
unfolding calls call load_begins Dict.get Dict.put handle_session_update collect start new_client
    Continues concat
load_begins-running_example =
    load_begins-running before_load while_loading "s" refl refl
      (tt, (tt, (tt, (tt, (tt, (tt, tt))))))

abbrev text_of : Value → String
text_of (str s) = s
text_of _ = ""

abbrev request : String → Fields
request approval_id = field "approval_id" (str approval_id) end

abbrev two_runs : List Step
two_runs =
    accepts "r" "s"
    ∷ accepts "q" "t"
    ∷ requests true "r" "s" (request "a")
    ∷ requests true "q" "t" (request "a")
    ∷ requests true "r" "s" (request "b")
    ∷ decides (decision_message "r" "b" "yes")
    ∷ []

cancel_permission_waiters-settles_example :
    let waiters = (steps text_of new_executor two_runs).pending_permission_decisions in
    let waiters' =
      (cancel_permission_waiters
        (steps text_of new_executor two_runs)
        "r"
        "run_cancelled").pending_permission_decisions in
    (lookup waiters' ("r", "a") ≡ none)
    × (waiters'.futures 0
        ≡ settled (done_with (cancelled (some "run_cancelled"))) (waiters.futures 0))
unfolding steps step permission_requested text_or_empty truthy strip run_accepted
    handle_permission_decision decision_message get open_waiter lookup settle message_decision
    new_executor no_waiters Dict.put Dict.get
cancel_permission_waiters-settles_example =
    cancel_permission_waiters-settles text_of two_runs "r" "run_cancelled" ("r", "a") 0 refl

backend_connection_closed-settles_example :
    let e = backend_connection_closed (steps text_of new_executor two_runs) in
    (lookup e.pending_permission_decisions ("q", "a") ≡ none)
    × (is_done (e.pending_permission_decisions.futures 1) ≡ true)
unfolding steps step permission_requested text_or_empty truthy strip run_accepted
    handle_permission_decision decision_message get open_waiter lookup settle message_decision
    new_executor no_waiters Dict.put Dict.get
backend_connection_closed-settles_example =
    backend_connection_closed-settles text_of two_runs ("q", "a") 1 refl refl

decision-answers_example :
    let e = steps text_of new_executor two_runs in
    let e' = (permission_requested text_of true e "r" "s" (request "c")).0 in
    let e'' = handle_permission_decision text_of e' (decision_message "r" "c" "no") in
    (steps text_of e'' (finishes "r" ∷ [])).pending_permission_decisions.futures
      e.pending_permission_decisions.next_future
    ≡ done_with (selected "no")
unfolding get strip
decision-answers_example =
    decision-answers text_of two_runs (finishes "r" ∷ []) "r" "s" "c" "no" (request "c") (λ s. refl)
      refl refl refl refl

abbrev failures : List (PocageExecutor × Failure)
failures =
    (new_executor, other)
    ∷ (run_accepted new_executor "r" "s", going_away)
    ∷ (new_executor, other)
    ∷ []

run_forever-failures_example :
    let to_stop = steps text_of (stop_executor new_executor) (accepts "r" "s" ∷ []) in
    run_forever lower
      (map failing failures ++ record { executor = to_stop; attempt = returned } ∷ [])
    ≡ (doubling 0 failures, stopped)
unfolding policy_violation_message new_executor run_accepted
run_forever-failures_example =
    (run_forever-failures lower failures new_executor new_executor text_of (accepts "r" "s" ∷ [])
      returned [] ((refl, refl), ((refl, refl), ((refl, refl), tt))) refl).1
