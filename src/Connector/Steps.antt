-- ===== src/Connector/Steps.antt =====
-- connector/pocage/executor.py: histories of what a `PocageExecutor` does, and its table of permission
-- decisions in them.
use pocage.Prelude.{
  ℕ, String, Bool, false, not, ◌||◌, Option, none, some, List, [], ◌∷◌, Bool-cases, Option-cases,
  inl, inr,
}
use pocage.Text.{strip, is_nonempty}
use pocage.Dict
use pocage.Json.Defs.{Value, Fields}
use pocage.Json.Access.{get}
use pocage.Waiters.{done_with, Waiters, no_waiters, lookup}
use pocage.Waiters.Laws.{IsValid, no_waiters-IsValid}
use pocage.Waiters.Evolves.{
  Evolves, Evolves-refl, Evolves-trans, open_waiter-Evolves, pop_waiter-Evolves, settle-Evolves,
  settle_first-Evolves,
}
use pocage.Connector.AgentClient.{AcpClient, new_client}
use pocage.Connector.Executor.{
  Decision, cancelled, PocageExecutor, cancel_permission_waiters, text_or_empty, message_decision,
  decide, handle_permission_decision, permission_requested, permission_answered, run_accepted,
  run_finished, run_setup_failed, handle_run_cancel, cancel_each, backend_connection_closed,
  stop_executor,
}

unfoldable pub new_executor : PocageExecutor
new_executor = record {
  stop_event = false;
  acp = new_client;
  active_runs = [];
  pending_permission_decisions = no_waiters;
}

pub data Step : Type 0 where
  requests : (sends : Bool) → (run_id session_id : String) → Fields → Step
  answered : (run_id approval_id : String) → Step
  decides : (message : Fields) → Step
  accepts : (run_id session_id : String) → Step
  finishes : (run_id : String) → Step
  fails_setup : AcpClient → (run_id : String) → Step
  cancels : (message : Fields) → Step
  disconnects : Step
  agent_changes : AcpClient → Step
  stops : Step

unfoldable pub step : (Value → String) → PocageExecutor → Step → PocageExecutor
step text_of e (requests sends run_id session_id request) =
    (permission_requested text_of sends e run_id session_id request).0
step text_of e (answered run_id approval_id) = permission_answered e run_id approval_id
step text_of e (decides message) = handle_permission_decision text_of e message
step text_of e (accepts run_id session_id) = run_accepted e run_id session_id
step text_of e (finishes run_id) = run_finished e run_id
step text_of e (fails_setup client run_id) = run_setup_failed client e run_id
step text_of e (cancels message) = (handle_run_cancel text_of e message).0
step text_of e disconnects = backend_connection_closed e
step text_of e (agent_changes client) = record e { acp = client }
step text_of e stops = stop_executor e

unfoldable pub steps : (Value → String) → PocageExecutor → List Step → PocageExecutor
steps text_of e [] = e
steps text_of e (s ∷ ss) = steps text_of (step text_of e s) ss

-- The table of permission decisions of a later executor.
abbrev pub Later : PocageExecutor → PocageExecutor → Type 0
Later e e' = Evolves e.pending_permission_decisions e'.pending_permission_decisions

decide-Evolves :
    (w : Waiters Decision) (future : Option ℕ) (decision : Decision)
    → Evolves w (decide w future decision)
decide-Evolves w none decision = Evolves-refl w
decide-Evolves w (some future) decision = settle-Evolves w future (done_with decision)

pub handle_permission_decision-Later :
    (text_of : Value → String) (e : PocageExecutor) (message : Fields)
    → Later e (handle_permission_decision text_of e message)
unfolding handle_permission_decision
handle_permission_decision-Later text_of e message =
    let run_id = text_or_empty text_of (get message "run_id") in
    let approval_id = text_or_empty text_of (get message "approval_id") in
    elim (Bool-cases (not (is_nonempty run_id) || not (is_nonempty approval_id))) [
      | inl g ↦ rw (handle_permission_decision, g) (Evolves-refl e.pending_permission_decisions)
      | inr g ↦
          rw (handle_permission_decision, g)
            (decide-Evolves e.pending_permission_decisions
              (lookup e.pending_permission_decisions (run_id, approval_id))
              (message_decision message))
    ]

permission_requested-Later :
    (text_of : Value → String) (sends : Bool) (e : PocageExecutor) (run_id session_id : String)
    (request : Fields)
    → Later e (permission_requested text_of sends e run_id session_id request).0
unfolding permission_requested
permission_requested-Later text_of sends e run_id session_id request =
    let approval_id = strip (text_or_empty text_of (get request "approval_id")) in
    elim (Bool-cases (is_nonempty approval_id)) [
      | inl g ↦
          rw (permission_requested, g)
            (open_waiter-Evolves e.pending_permission_decisions (run_id, approval_id))
      | inr g ↦ rw (permission_requested, g) (Evolves-refl e.pending_permission_decisions)
    ]

cancel-Later :
    (e : PocageExecutor) (run_id reason : String)
    → Later e (cancel_permission_waiters e run_id reason)
unfolding cancel_permission_waiters
cancel-Later e run_id reason =
    settle_first-Evolves e.pending_permission_decisions run_id (done_with (cancelled (some reason)))

pub cancel_each-Later :
    (e : PocageExecutor) (run_ids : List String) → Later e (cancel_each e run_ids)
unfolding cancel_each
cancel_each-Later e [] = Evolves-refl e.pending_permission_decisions
cancel_each-Later e (run_id ∷ run_ids) =
    Evolves-trans (cancel-Later e run_id "backend_connection_closed")
      (cancel_each-Later (cancel_permission_waiters e run_id "backend_connection_closed") run_ids)

handle_run_cancel-Later :
    (text_of : Value → String) (e : PocageExecutor) (message : Fields)
    → Later e (handle_run_cancel text_of e message).0
unfolding handle_run_cancel
handle_run_cancel-Later text_of e message =
    elim (Option-cases (Dict.get e.active_runs (text_of (get message "run_id")))) [
      | inl g ↦ rw (handle_run_cancel, g) (Evolves-refl e.pending_permission_decisions)
      | inr (active, g) ↦
          rw (handle_run_cancel, g)
            (cancel-Later e (text_of (get message "run_id")) "run_cancelled")
    ]

step-Later : (text_of : Value → String) (e : PocageExecutor) (s : Step) → Later e (step text_of e s)
unfolding step permission_answered run_accepted run_finished run_setup_failed
    backend_connection_closed stop_executor
step-Later text_of e (requests sends run_id session_id request) =
    permission_requested-Later text_of sends e run_id session_id request
step-Later text_of e (answered run_id approval_id) =
    pop_waiter-Evolves e.pending_permission_decisions (run_id, approval_id)
step-Later text_of e (decides message) = handle_permission_decision-Later text_of e message
step-Later text_of e (accepts run_id session_id) = Evolves-refl e.pending_permission_decisions
step-Later text_of e (finishes run_id) = cancel-Later e run_id "run_finished"
step-Later text_of e (fails_setup client run_id) = cancel-Later e run_id "run_setup_failed"
step-Later text_of e (cancels message) = handle_run_cancel-Later text_of e message
step-Later text_of e disconnects = cancel_each-Later e (Dict.keys e.active_runs)
step-Later text_of e (agent_changes client) = Evolves-refl e.pending_permission_decisions
step-Later text_of e stops = Evolves-refl e.pending_permission_decisions

pub steps-Later :
    (text_of : Value → String) (e : PocageExecutor) (ss : List Step) → Later e (steps text_of e ss)
unfolding steps
steps-Later text_of e [] = Evolves-refl e.pending_permission_decisions
steps-Later text_of e (s ∷ ss) =
    Evolves-trans (step-Later text_of e s) (steps-Later text_of (step text_of e s) ss)

pub steps-IsValid :
    (text_of : Value → String) (ss : List Step)
    → IsValid (steps text_of new_executor ss).pending_permission_decisions
unfolding new_executor
steps-IsValid text_of ss = (steps-Later text_of new_executor ss).valid no_waiters-IsValid
