-- ===== src/Connector/Connection.antt =====
-- connector/pocage/executor.py: when the connector connects again. `lower` stands for `str.lower`.
use Prim.Native.Nat.{min}
use pocage.Prelude.{
  ℕ, ◌*◌, String, Bool, ◌||◌, Option, none, some, List, [], ◌∷◌, same, if◌then◌else◌,
}
use pocage.Text.{strip, is_nonempty}
use pocage.Text.Search.{contains}
use pocage.Connector.Executor.{PocageExecutor}

-- a close frame
pub record Close : Type 0 where
  pub code : ℕ
  pub reason : String

-- an exception of `_run_once`: a closed connection with the frames received and sent, or another one
pub data Failure : Type 0 where
  connection_closed : (rcvd sent : Option Close) → Failure
  other : Failure

-- the frame whose code and reason are read
abbrev close_of : Option Close → Option Close → Option Close
close_of none sent = sent
close_of (some close) sent = some close

abbrev machine_connected : String
machine_connected =
    "This machine is already connected. Stop the existing pocage process before starting another one."

abbrev pairing_invalid : String
pairing_invalid = "Stored pairing credentials are no longer valid. Pair this machine again."

module _ (lower : String → String) where
  unfoldable pub policy_reason : (reason : String) → String
  policy_reason reason =
      let lowered = lower reason in
      if contains lowered "already connected"
      then machine_connected
      else if contains lowered "invalid machine token"
          || contains lowered "does not match token"
          || contains lowered "revoked"
      then pairing_invalid
      else if is_nonempty reason
      then reason
      else "Connection rejected by the control plane."

  -- `_policy_violation_message`
  unfoldable pub policy_violation_message : Failure → Option String
  policy_violation_message other = none
  policy_violation_message (connection_closed rcvd sent) = elim (close_of rcvd sent) [
    | none ↦ none
    | some close ↦ if same close.code 1008 then some (policy_reason (strip close.reason)) else none
  ]

-- how a `_run_once` ends: it returns, it raises an exception, behind which the sleep may be cancelled,
-- or it is cancelled itself
pub data Attempt : Type 0 where
  returned : Attempt
  failed : Failure → (sleep_cancelled : Bool) → Attempt
  cancelled_error : Attempt

-- the executor at a test of the loop, and the attempt that follows if the loop goes on
pub record Round : Type 0 where
  pub executor : PocageExecutor
  pub attempt : Attempt

-- what `run_forever` does between its attempts: it tries again at once, or sleeps first
pub data Pause : Type 0 where
  at_once : Pause
  sleeps : ℕ → Pause

-- how the loop stands: under way, left for the stop event, left for a rejection, or left by the
-- CancelledError that it raises again
pub data LoopEnd : Type 0 where
  under_way : LoopEnd
  stopped : LoopEnd
  rejected : (message : String) → LoopEnd
  raises_cancelled : LoopEnd

unfoldable pub next_delay : ℕ → ℕ
next_delay delay = min (delay * 2) 20

abbrev pub after_pause : Pause → List Pause × LoopEnd → List Pause × LoopEnd
after_pause pause (pauses, loop_end) = (pause ∷ pauses, loop_end)

module _ (lower : String → String) where
  -- the loop of `run_forever` over its rounds, as its pauses and how it stands behind them
  unfoldable pub run_forever_from : (delay : ℕ) → List Round → List Pause × LoopEnd
  unfolding next_delay policy_violation_message
  run_forever_from delay [] = ([], under_way)
  run_forever_from delay (round ∷ rounds) =
      let again = run_forever_from 1 rounds in
      let later = run_forever_from (next_delay delay) rounds in
      if round.executor.stop_event then ([], stopped) else (elim round.attempt [
        | returned ↦ after_pause at_once again
        | cancelled_error ↦ ([], raises_cancelled)
        | failed failure sleep_cancelled ↦ elim (policy_violation_message lower failure) [
          | some message ↦ ([], rejected message)
          | none ↦
              if sleep_cancelled
              then (sleeps delay ∷ [], raises_cancelled)
              else after_pause (sleeps delay) later
        ]
      ])

  unfoldable pub run_forever : List Round → List Pause × LoopEnd
  run_forever rounds = run_forever_from 1 rounds
