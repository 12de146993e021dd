-- ===== src/Executor/Examples.antt =====
-- backend/app/executor_manager.py: the theorems with two daemons, of which one cannot be reached.
use Prim.Native.String.{count}
use pocage.Prelude.{String, ◌≡◌, refl, Bool, none, some, [], ◌∷◌, ◌==◌}
use text.Mathlib.TextLemmas.{nil≢cons, cons≢nil, tail-eq_of_cons-eq}
use pocage.Prelude.{ℕ, zero, suc, ap, subst, ◌≤◌, true, length, get_or, arith, one_of, List, Option}
use pocage.Text.{strip, is_nonempty}
use pocage.Json.Defs.{str, field, end}
use pocage.Executor.Answers.{Page, RemoteSessionItem, SessionPointer}
use pocage.Executor.Listing.{under_way, list_remote_sessions}
use pocage.Executor.ListingEnds.{
  is_over, list_remote_sessions-ends, empty_page, list_remote_sessions-endless,
}
use pocage.Executor.Pointers.{page_ids, replace_rows, write_rows, pointer_row, nonblank}
use pocage.Executor.PointerPages.{has-replace_rows}
use pocage.Executor.Requests.{session_list, session_create}
use pocage.Executor.Exchanges.{Exchange, asks, answers_list, exchanges, FailsFor, unregister-fails}
use pocage.Dict
use pocage.Dict.{Dict}
use pocage.Events.Broker.{new_broker}
use pocage.Runtime.State.{RuntimeState, new_runtime}
use pocage.Runtime.Runs.{CreatedRun, create_run}
use pocage.Waiters.{no_waiters}
use pocage.Executor.Defs.{ExecutorSession, ExecutorManager, Stamp, unregister}
use pocage.Executor.Dispatch.{dispatch_pending}
use pocage.Executor.Connections.{
  Connection, connects, disconnects, connections, first_connected, get-connections,
}
use pocage.Executor.Termination.{IsFiled, dispatch_pending-ends}

abbrev daemon : String → ExecutorSession
daemon id = record {
  daemon_id = id;
  name = "codex";
  agent = "codex";
  hostname = none;
  workspace_roots = [];
  connected_at = "1";
  machine_id = none;
  agent_instance_id = none;
  busy_run_id = none;
}

abbrev ids : String → CreatedRun
ids id = record { run_id = id; user_message_id = "u"; assistant_message_id = "a" }

abbrev runtime : RuntimeState
runtime =
    create_run
      (create_run (new_runtime 10 1000 60 5 none) (ids "r1") "1" "s1" "d" "/" "hello" [] [])
      (ids "r2") "2" "s2" "e" "/" "hello" [] []

abbrev manager : ExecutorManager
manager = record {
  runtime = runtime;
  broker = new_broker 10;
  daemons = ("d", daemon "d") ∷ ("e", daemon "e") ∷ [];
  run_stream_bytes = [];
  context_search_waiters = no_waiters;
  session_create_waiters = no_waiters;
  session_list_waiters = no_waiters;
  session_sync_waiters = no_waiters;
  session_pointers = some [];
  max_session_update_bytes = 1000;
  max_run_stream_bytes = 1000;
  max_session_sync_bytes = 1000;
}

abbrev sends : String → String → Bool
sends daemon_id run_id = daemon_id == "d"

abbrev stamp : String → Stamp
stamp run_id = record { now = "3"; event_id = run_id }

dispatch_pending-ends_example :
    (m' : ExecutorManager) × (dispatch_pending count sends stamp manager "3" ≡ some m')
    × IsFiled m'.daemons
unfolding Dict.get
dispatch_pending-ends_example =
    dispatch_pending-ends count sends stamp "3" manager
      (record { distinct = (refl, (refl, tt)); named = (refl, (refl, tt)) })

abbrev meetings : List Connection
meetings =
    connects (daemon "d")
    ∷ disconnects "d" (stamp "r")
    ∷ connects (daemon "d")
    ∷ connects (record (daemon "d") { name = "another" })
    ∷ []

get-connections_example :
    Dict.get (connections count (record manager { daemons = [] }) meetings).daemons "d"
    ≡ some (daemon "d")
unfolding first_connected Dict.get
get-connections_example =
    (get-connections count (record manager { daemons = [] }) meetings
        (record { distinct = tt; named = tt })).1
      "d"

abbrev full_page : Page
full_page = record { items = field "session_id" (str "s") end ∷ []; next_cursor = some "c" }

list_remote_sessions-ends_example :
    is_over (list_remote_sessions (λ round cursor. some full_page) 500) ≡ true
list_remote_sessions-ends_example =
    list_remote_sessions-ends (λ round cursor. some full_page)
      (λ round cursor answer e. subst (λ p. 1 ≤ length (get_or p full_page).items) e (omega arith))

-- "c", "cc", "ccc" and so on
unfoldable cursors : ℕ → String
cursors zero = "c"
cursors (suc n) = String.◌∷◌ "c" (cursors n)

cursors-injective : (i j : ℕ) → cursors i ≡ cursors j → i ≡ j
unfolding cursors
cursors-injective zero zero e = refl
cursors-injective zero (suc zero) e = absurd (nil≢cons (tail-eq_of_cons-eq e))
cursors-injective zero (suc (suc j)) e = absurd (nil≢cons (tail-eq_of_cons-eq e))
cursors-injective (suc zero) zero e = absurd (cons≢nil (tail-eq_of_cons-eq e))
cursors-injective (suc (suc i)) zero e = absurd (cons≢nil (tail-eq_of_cons-eq e))
cursors-injective (suc i) (suc j) e = ap suc (cursors-injective i j (tail-eq_of_cons-eq e))

cursors-nonempty : (i : ℕ) → is_nonempty (cursors i) ≡ true
unfolding cursors
cursors-nonempty zero = refl
cursors-nonempty (suc i) = refl

list_remote_sessions-endless_example : list_remote_sessions (empty_page cursors) 1000 ≡ under_way
list_remote_sessions-endless_example =
    list_remote_sessions-endless cursors cursors-injective cursors-nonempty 1000

abbrev hash_secret : String → String
hash_secret s = s

abbrev seen_at : Option String → String
seen_at t = get_or t "now"

abbrev second_page : List RemoteSessionItem
second_page = record { session_id = " s2 "; cwd = "/home"; title = "Two"; updated_at = "2" } ∷ []

abbrev first_rows : Dict SessionPointer
first_rows =
    ("s1", record { title_hint = some "One"; cwd_hash = none; status = "idle"; last_seen_at = "1" })
    ∷ []

abbrev second_rows : Dict SessionPointer
second_rows =
    (
      "s2",
      record {
        title_hint = some "Two";
        cwd_hash = some "/home";
        status = "idle";
        last_seen_at = "2";
      },
    )
    ∷ []

has-replace_rows_example : Dict.has second_rows "s1" ≡ one_of "s1" (page_ids second_page)
unfolding replace_rows write_rows page_ids strip Dict.put Dict.get pointer_row nonblank
has-replace_rows_example =
    has-replace_rows hash_secret seen_at first_rows second_rows second_page "s1" refl

abbrev instant : String → ℕ
instant s = count s

abbrev requests : List Exchange
requests =
    asks session_list "d" "1"
    ∷ asks session_list "e" "1"
    ∷ asks session_create "d" "2"
    ∷ answers_list "d"
        (record { request_id = "1"; items = second_page; next_cursor = none; error_message = none })
    ∷ []

unregister-fails_example :
    let before = exchanges instant hash_secret seen_at manager requests in
    let after = unregister instant before "d" (stamp "r") in
    FailsFor "d" before.context_search_waiters after.context_search_waiters
    × FailsFor "d" before.session_create_waiters after.session_create_waiters
    × FailsFor "d" before.session_list_waiters after.session_list_waiters
    × FailsFor "d" before.session_sync_waiters after.session_sync_waiters
unregister-fails_example =
    unregister-fails instant hash_secret seen_at manager requests "d" (stamp "r") refl refl refl
      refl
