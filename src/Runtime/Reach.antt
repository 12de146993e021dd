-- ===== src/Runtime/Reach.antt =====
-- backend/app/runtime_state.py: the methods that write to runs or to the queue as steps of a
-- state machine, and what holds after any history of them.
use pocage.Prelude.{
  ℕ, String, ◌≡◌, refl, Option, List, [], ◌∷◌, Bool, true, false, ◌==◌, if◌then◌else◌,
}
use pocage.Dict
use pocage.Json.Defs.{Value}
use pocage.Runtime.State.{
  Status, completed, cancelled, is_terminal, is_queued, RuntimeState, new_runtime,
}
use pocage.Runtime.Runs.{
  terminal_run, create_run, CreatedRun, claim_next_queued_run, mark_run_assigned, mark_run_started,
  mark_run_completed, mark_run_failed, mark_run_cancelled, mark_run_executor_disconnected,
}
use pocage.Runtime.Cleanup.{cleanup}
use pocage.Runtime.Lifecycle.{IsSound, create_run-IsSound}
use pocage.Runtime.Steps.{
  Ends, claim_from-IsSound, mark_run_assigned-IsSound, mark_run_started-IsSound, end_run-IsSound,
  cleanup-IsSound,
}

-- A call of a method that writes to runs or to the queue, with the results of `utc_now` and `new_id`.
pub data Call : Type 0 where
  creates :
      CreatedRun → (now session_id daemon_id cwd content : String) → List Value → List Value → Call
  claims : (daemon_id now : String) → Call
  assigns : String → Option String → String → Call
  starts : String → Option String → (session_id now : String) → Call
  completes : (run_id stop_reason now : String) → Call
  fails : (run_id error_code error_message now : String) → Call
  cancels disconnects : (run_id now : String) → Call
  cleans : ℕ → Call

module _ (instant : String → ℕ) where
  unfoldable pub call : RuntimeState → Call → RuntimeState
  call s (creates ids now session_id daemon_id cwd content prompt_items mcp_servers) =
      create_run s ids now session_id daemon_id cwd content prompt_items mcp_servers
  call s (claims daemon_id now) = (claim_next_queued_run s daemon_id now).0
  call s (assigns run_id executor_id now) = (mark_run_assigned s run_id executor_id now).0
  call s (starts run_id executor_id session_id now) =
      (mark_run_started s run_id executor_id session_id now).0
  call s (completes run_id stop_reason now) =
      (mark_run_completed instant s run_id stop_reason now).0
  call s (fails run_id error_code error_message now) =
      (mark_run_failed instant s run_id error_code error_message now).0
  call s (cancels run_id now) = (mark_run_cancelled instant s run_id now).0
  call s (disconnects run_id now) = (mark_run_executor_disconnected instant s run_id now).0
  call s (cleans now) = (cleanup instant s now).0

  unfoldable pub calls : RuntimeState → List Call → RuntimeState
  calls s [] = s
  calls s (c ∷ cs) = calls (call s c) cs

  stop_status :
      (b : Bool)
      → let status = if b then cancelled else completed in
        (is_terminal status ≡ true) × (is_queued status ≡ false)
  stop_status true = (refl, refl)
  stop_status false = (refl, refl)

  terminal_Ends :
      (status : Status) (now : String)
      → is_terminal status ≡ true
      → is_queued status ≡ false
      → Ends (λ run. terminal_run run status now)
  unfolding terminal_run
  terminal_Ends status now t q = record {
    same_id = λ run. refl;
    dated = λ run. rw t;
    not_waiting = λ run. q;
  }

  call-IsSound : (s : RuntimeState) (c : Call) → IsSound s → IsSound (call s c)
  unfolding call claim_next_queued_run mark_run_completed mark_run_failed mark_run_cancelled
      mark_run_executor_disconnected terminal_run
  call-IsSound s (creates ids now session_id daemon_id cwd content prompt_items mcp_servers) h =
      create_run-IsSound s ids now session_id daemon_id cwd content prompt_items mcp_servers h
  call-IsSound s (claims daemon_id now) h = claim_from-IsSound s.queued_runs s daemon_id now h
  call-IsSound s (assigns run_id executor_id now) h =
      mark_run_assigned-IsSound s run_id executor_id now h
  call-IsSound s (starts run_id executor_id session_id now) h =
      mark_run_started-IsSound s run_id executor_id session_id now h
  call-IsSound s (completes run_id stop_reason now) h =
      let t = stop_status (stop_reason == "cancelled") in
      end_run-IsSound instant s run_id _ now (terminal_Ends _ now t.0 t.1) h
  call-IsSound s (fails run_id error_code error_message now) h =
      end_run-IsSound instant s run_id _ now
        (record { same_id = λ run. refl; dated = λ run. refl; not_waiting = λ run. refl }) h
  call-IsSound s (cancels run_id now) h =
      end_run-IsSound instant s run_id _ now (terminal_Ends _ now refl refl) h
  call-IsSound s (disconnects run_id now) h =
      end_run-IsSound instant s run_id _ now (terminal_Ends _ now refl refl) h
  call-IsSound s (cleans now) h = cleanup-IsSound instant s now h

  calls_from : (s : RuntimeState) (cs : List Call) → IsSound s → IsSound (calls s cs)
  unfolding calls
  calls_from s [] h = h
  calls_from s (c ∷ cs) h = calls_from (call s c) cs (call-IsSound s c h)

  new-IsSound :
      (events payload ttl local : ℕ) (remote : Option ℕ)
      → IsSound (new_runtime events payload ttl local remote)
  unfolding new_runtime Dict.get
  new-IsSound events payload ttl local remote = record {
    distinct = tt;
    named = λ i r h. cc;
    dated = λ i r h. cc;
    waiting = λ i r h u. cc;
  }

  -- After any history of calls on a new `RuntimeState`: each run is filed once, under its own id, it has an
  -- end time exactly when its status is terminal, and a run that is queued stands in the queue.
  pub calls-IsSound :
      (events payload ttl local : ℕ) (remote : Option ℕ) (cs : List Call)
      → IsSound (calls (new_runtime events payload ttl local remote) cs)
  calls-IsSound events payload ttl local remote cs =
      calls_from _ cs (new-IsSound events payload ttl local remote)
