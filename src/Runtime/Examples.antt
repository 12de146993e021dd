-- ===== src/Runtime/Examples.antt =====
-- backend/app/runtime_state.py: the theorems at concrete states, payloads and histories.
use Prim.Native.String.{count}
use pocage.Prelude.{
  ◌+◌, if◌then◌else◌, String, ◌≡◌, refl, List, [], ◌∷◌, ◌≤◌, ◌<◌, ◌⊎◌, arith, true, none, some,
  drop, length,
}
use pocage.Dict
use pocage.Json.Defs.{Fields, bool, str, obj, to_fields}
use pocage.Json.Access.{member}
use pocage.Json.Size.{json_size, decimal_length}
use pocage.Runtime.Payload.{normalized_event_payload}
use pocage.Runtime.PayloadBounds.{normalized_event_payload-fits, normalized_event_payload-marks}
use pocage.Runtime.State.{Session, idle, queued, assigned, RuntimeRun, RuntimeState, new_runtime}
use pocage.Runtime.Runs.{CreatedRun, claim_next_queued_run, prune_session_runs}
use pocage.Runtime.RunEvents.{list_run_events}
use pocage.Runtime.Permissions.{create_permission_request}
use pocage.Runtime.Cleanup.{cleanup}
use pocage.Runtime.Orphans.{cleanup-drops_orphans}
use pocage.Runtime.Sessions.{listed_rows, is_listed_before}
use pocage.Runtime.Pages.{walk, walk-list_sessions}
use pocage.Runtime.Claim.{first_claimable, claimed_queue, claimed_runs, claim_next_queued_run-first}
use pocage.Runtime.History.{Stored, store_all, full_history, list_run_events-store_all}
use pocage.Runtime.Lifecycle.{IsSound}
use pocage.Runtime.Reach.{Call, creates, claims, completes, calls, calls-IsSound}
use pocage.Runtime.Pruning.{terminal_runs, IsSound-IsFiled, prune_session_runs-bounded}

abbrev payload : Fields
payload = to_fields (
    ("run_id", str "r")
    ∷ ("update", str "an update that is longer than the limit of a stored payload allows")
    ∷ [])

normalized_event_payload-fits_example :
    (json_size (obj (normalized_event_payload 60 "run.session_update" payload)) ≤ 60)
    × ((normalized_event_payload 60 "run.session_update" payload ≡ payload)
        ⊎ (60 < json_size (obj payload)))
unfolding decimal_length json_size
normalized_event_payload-fits_example =
    normalized_event_payload-fits 60 "run.session_update" payload (omega arith)

normalized_event_payload-marks_example :
    member (normalized_event_payload 60 "run.session_update" payload) "truncated" ≡ some (bool true)
unfolding json_size
normalized_event_payload-marks_example =
    normalized_event_payload-marks 60 "run.session_update" payload (omega arith)

abbrev ids : String → CreatedRun
ids id = record { run_id = id; user_message_id = "u"; assistant_message_id = "a" }

abbrev history : List Call
history =
    creates (ids "r1") "1" "s" "d" "/" "hello" [] []
    ∷ creates (ids "r2") "2" "s" "d" "/" "again" [] []
    ∷ claims "d" "3"
    ∷ completes "r1" "end_turn" "4"
    ∷ completes "r2" "cancelled" "5"
    ∷ creates (ids "r3") "6" "s" "e" "/" "more" [] []
    ∷ creates (ids "r4") "7" "s" "d" "/" "most" [] []
    ∷ []

abbrev state : RuntimeState
state = calls count (new_runtime 2 100 1 1 none) history

calls-IsSound_example : IsSound state
calls-IsSound_example = calls-IsSound count 2 100 1 1 none history

abbrev queued_run : String → String → RuntimeRun
queued_run id daemon_id = record {
  run_id = id;
  session_id = "s";
  daemon_id = daemon_id;
  cwd = "/";
  content = "hello";
  prompt_items = [];
  mcp_servers = [];
  user_content = "hello";
  user_message_id = "u";
  assistant_message_id = "a";
  created_at = "1";
  updated_at = "1";
  status = queued;
  executor_id = none;
  error_code = none;
  error_message = none;
  terminal_at = none;
}

-- a queue with an id that no run has, and runs of two daemons
abbrev waiting : RuntimeState
waiting = record (new_runtime 2 100 1 1 none) {
  runs = ("r3", queued_run "r3" "e") ∷ ("r4", queued_run "r4" "d") ∷ [];
  queued_runs = "gone" ∷ "r3" ∷ "r4" ∷ [];
}

claim_next_queued_run-first_example :
    let (s', claimed_run) = claim_next_queued_run waiting "d" "8" in
    (claimed_run ≡ some (record (queued_run "r4" "d") { status = assigned; updated_at = "8" }))
    × (s'.queued_runs ≡ "r3" ∷ [])
    × (s'.runs ≡ claimed_runs (some ("r4", queued_run "r4" "d")) "8" waiting.runs)
unfolding first_claimable claimed_queue new_runtime Dict.get
claim_next_queued_run-first_example =
    claim_next_queued_run-first waiting "d" "8" (refl, (refl, (refl, tt)))

prune_session_runs-bounded_example :
    length (terminal_runs (prune_session_runs count state "s") "s")
    ≤ state.limits.max_local_runs_per_session
prune_session_runs-bounded_example =
    prune_session_runs-bounded count state "s"
      (IsSound-IsFiled state (calls-IsSound count 2 100 1 1 none history))

abbrev stored : String → Stored
stored id = record { event_type = "run.queued"; payload = to_fields []; now = "1"; event_id = id }

abbrev fresh : RuntimeState
fresh = new_runtime 2 100 1 1 none

list_run_events-store_all_example :
    list_run_events (store_all fresh "r" (stored "1" ∷ stored "2" ∷ stored "3" ∷ [])) "r"
    ≡ drop 1 (full_history 100 "r" 0 (stored "1" ∷ stored "2" ∷ stored "3" ∷ []))
unfolding new_runtime Dict.get
list_run_events-store_all_example =
    list_run_events-store_all fresh "r" (stored "1" ∷ stored "2" ∷ stored "3" ∷ []) (omega arith)
      refl refl

abbrev asking : RuntimeState
asking = (create_permission_request fresh "r" "a" none "s" (to_fields []) [] "1").0

cleanup-drops_orphans_example :
    let t = (cleanup count state 100000000).0 in
    (Dict.get t.run_events "r1"
      ≡ (if Dict.has t.runs "r1" then Dict.get state.run_events "r1" else none))
    × (Dict.get t.permission_requests "r1"
        ≡ (if Dict.has t.runs "r1" then Dict.get state.permission_requests "r1" else none))
cleanup-drops_orphans_example = cleanup-drops_orphans count state 100000000 "r1"

abbrev session : String → String → Session
session id updated_at = record {
  id = id;
  title = "New session";
  cwd = "/";
  agent_instance_id = none;
  daemon_id = "d";
  status = idle;
  mcp_servers = [];
  remote_updated_at = updated_at;
  created_at = "1";
  updated_at = updated_at;
  executor_id = none;
}

abbrev three_sessions : RuntimeState
three_sessions = record fresh {
  sessions = ("a", session "a" "5") ∷ ("b", session "b" "7") ∷ ("c", session "c" "6") ∷ [];
}

walk-list_sessions_example :
    walk three_sessions none 2 (length (listed_rows three_sessions none) + 1) none
    ≡ session "b" "7" ∷ session "c" "6" ∷ session "a" "5" ∷ []
unfolding listed_rows is_listed_before
walk-list_sessions_example =
    walk-list_sessions three_sessions none 1 (refl, (refl, (refl, tt))) (refl, (refl, (refl, tt)))
