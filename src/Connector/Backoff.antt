-- ===== src/Connector/Backoff.antt =====
-- connector/pocage/executor.py: the delays of `run_forever`, and what ends it.
use Prim.Native.Nat.pow
use Prim.Native.Nat.{min, ◌^◌}
use pocage.Prelude.{
  ℕ, suc, ◌+◌, String, ◌≡◌, refl, ap, sym, ◌∙◌, true, false, none, List, [], ◌∷◌, ◌++◌, map, All,
  arith, length, append-nil,
}
use pocage.Dict
use pocage.Json.Defs.{Value}
use pocage.Connector.Connection.{
  Failure, policy_violation_message, Attempt, returned, failed, Round, Pause, at_once, sleeps,
  LoopEnd, under_way, stopped, after_pause, next_delay, run_forever_from, run_forever,
}
use pocage.Connector.Executor.{
  PocageExecutor, cancel_permission_waiters, handle_permission_decision, permission_requested,
  permission_answered, run_accepted, run_finished, run_setup_failed, handle_run_cancel, cancel_each,
  backend_connection_closed, stop_executor,
}
use pocage.Connector.Steps.{
  Step, requests, answered, decides, accepts, finishes, fails_setup, cancels, disconnects,
  agent_changes, stops, step, steps,
}

cancel_each-stop_event :
    (e : PocageExecutor) (run_ids : List String) → (cancel_each e run_ids).stop_event ≡ e.stop_event
unfolding cancel_each cancel_permission_waiters
cancel_each-stop_event e [] = refl
cancel_each-stop_event e (run_id ∷ run_ids) =
    cancel_each-stop_event (cancel_permission_waiters e run_id "backend_connection_closed") run_ids

step-stopped :
    (text_of : Value → String) (e : PocageExecutor) (s : Step)
    → e.stop_event ≡ true
    → (step text_of e s).stop_event ≡ true
unfolding step permission_requested permission_answered handle_permission_decision run_accepted
    run_finished run_setup_failed handle_run_cancel backend_connection_closed stop_executor
    cancel_permission_waiters
step-stopped text_of e (requests sends run_id session_id request) h = ground arith
step-stopped text_of e (answered run_id approval_id) h = h
step-stopped text_of e (decides message) h = ground arith
step-stopped text_of e (accepts run_id session_id) h = h
step-stopped text_of e (finishes run_id) h = h
step-stopped text_of e (fails_setup client run_id) h = h
step-stopped text_of e (cancels message) h = ground arith
step-stopped text_of e disconnects h = cancel_each-stop_event e (Dict.keys e.active_runs) ∙ h
step-stopped text_of e (agent_changes client) h = h
step-stopped text_of e stops h = refl

-- Nothing clears the stop event.
steps-stopped :
    (text_of : Value → String) (e : PocageExecutor) (ss : List Step)
    → e.stop_event ≡ true
    → (steps text_of e ss).stop_event ≡ true
unfolding steps
steps-stopped text_of e [] h = h
steps-stopped text_of e (s ∷ ss) h =
    steps-stopped text_of (step text_of e s) ss (step-stopped text_of e s h)

-- a round in which the connection fails and the sleep behind it is not cancelled
abbrev pub failing : PocageExecutor × Failure → Round
failing (executor, failure) = record { executor = executor; attempt = failed failure false }

-- The sleeps before the attempts that follow `n` earlier failures in a row.
unfoldable pub doubling : (earlier : ℕ) → List (PocageExecutor × Failure) → List Pause
doubling n [] = []
doubling n (failure ∷ failures) = sleeps (min (2 ^ n) 20) ∷ doubling (suc n) failures

next_delay-doubling : (n : ℕ) → next_delay (min (2 ^ n) 20) ≡ min (2 ^ suc n) 20
unfolding next_delay
next_delay-doubling n = omega (arith, pow.suc 2 n)

abbrev behind : List Pause → List Pause × LoopEnd → List Pause × LoopEnd
behind pauses outcome = (pauses ++ outcome.0, outcome.1)

nothing_behind :
    {pauses : List Pause} {loop_end : LoopEnd} → behind pauses ([], loop_end) ≡ (pauses, loop_end)
nothing_behind {pauses} {loop_end} = ap (λ l. (l, loop_end)) (append-nil pauses)

module _ (lower : String → String) where
  -- The stop event is not set and the failure is no policy violation.
  abbrev pub Retries : PocageExecutor × Failure → Type 0
  Retries (executor, failure) =
      (executor.stop_event ≡ false) × (policy_violation_message lower failure ≡ none)

  failures_from :
      (n : ℕ) (failures : List (PocageExecutor × Failure)) (rest : List Round)
      → All Retries failures
      → run_forever_from lower (min (2 ^ n) 20) (map failing failures ++ rest)
        ≡ behind
            (doubling n failures)
            (run_forever_from lower (min (2 ^ (n + length failures)) 20) rest)
  unfolding run_forever_from doubling
  failures_from n [] rest h =
      let same_count : n ≡ n + 0 = omega arith in
      ap (λ k. run_forever_from lower (min (2 ^ k) 20) rest) same_count
  failures_from n ((executor, failure) ∷ failures) rest ((on, plain), h) =
      rw (run_forever_from, on, plain, next_delay-doubling n, failures_from (suc n) failures rest h)
        (let same_count : suc n + length failures ≡ n + suc (length failures) = omega arith in
          ap
            (λ k.
              behind (doubling n ((executor, failure) ∷ failures))
                (run_forever_from lower (min (2 ^ k) 20) rest))
            same_count)

  -- Let the connection fail a number of times in a row, each time without a policy violation, with
  -- the stop event not set and the sleep not cancelled. Each failure is followed by a sleep, of 1
  -- second after the first and of twice the last one after each further one, but of 20 at most.
  -- Behind that the loop is under way; if `stop` was called by its next test, whatever else the
  -- executor did since, it ends there; and if instead the stop event is not set and the next attempt
  -- returns, the loop goes on at once and with the delays of a new start.
  pub run_forever-failures :
      (failures : List (PocageExecutor × Failure)) (executor next : PocageExecutor)
      (text_of : Value → String) (since : List Step) (attempt : Attempt) (rest : List Round)
      → All Retries failures
      → next.stop_event ≡ false
      → let to_stop = steps text_of (stop_executor executor) since in
        (run_forever lower (map failing failures) ≡ (doubling 0 failures, under_way))
        × (run_forever lower
              (map failing failures ++ record { executor = to_stop; attempt = attempt } ∷ rest)
            ≡ (doubling 0 failures, stopped))
        × (run_forever lower
              (map failing failures ++ record { executor = next; attempt = returned } ∷ rest)
            ≡ behind (doubling 0 failures) (after_pause at_once (run_forever lower rest)))
  unfolding run_forever run_forever_from stop_executor
  run_forever-failures failures executor next text_of since attempt rest h on = (
    ap (run_forever_from lower 1) (sym (append-nil (map failing failures)))
        ∙ failures_from 0 failures [] h
        ∙ nothing_behind,
    failures_from 0 failures _ h
        ∙ rw (run_forever_from, steps-stopped text_of (stop_executor executor) since refl)
            nothing_behind,
    failures_from 0 failures _ h ∙ rw (run_forever_from, on) refl,
  )
