-- ===== src/Executor/Dispatch.antt =====
-- backend/app/executor_manager.py: `dispatch_pending`, `request_cancel` and `submit_permission_decision`.
-- `sends` stands for whether `send_json` to a daemon succeeds, and `stamp` for the results of `utc_now`
-- and `new_id` when a run is dispatched. Each is run without another task between its awaits.
use pocage.Prelude.{
  ℕ, suc, zero, String, Bool, true, false, ◌||◌, Option, none, some, List, [], ◌∷◌, filter,
  if◌then◌else◌, length,
}
use pocage.Text.{is_nonempty}
use pocage.Transcript.Segments.{is_empty_list}
use pocage.Dict
use pocage.Dict.{Dict}
use pocage.Json.Defs.{Fields, str, to_fields}
use pocage.Rows.{is_terminal, is_queued}
use pocage.Runtime.State.{RuntimeRun}
use pocage.Runtime.Runs.{
  claim_next_queued_run, get_run, mark_run_assigned, mark_run_cancelled, mark_run_failed,
}
use pocage.Executor.Defs.{
  ExecutorSession, ExecutorManager, Stamp, store_and_publish, error_payload,
  clear_run_stream_tracking, is_idle, set_busy,
}

-- `_list_available_daemons`
unfoldable pub list_available_daemons : ExecutorManager → List ExecutorSession
list_available_daemons m = filter is_idle (Dict.values m.daemons)

-- d.setdefault(run_id, 0)
unfoldable pub start_tracking : Dict ℕ → String → Dict ℕ
start_tracking d run_id = if Dict.has d run_id then d else Dict.put d run_id 0

unfoldable pub started_payload : RuntimeRun → String → Fields
started_payload run daemon_id = to_fields (
    ("run_id", str run.run_id)
    ∷ ("session_id", str run.session_id)
    ∷ ("executor_id", str daemon_id)
    ∷ [])

-- a run that was delivered
unfoldable pub dispatched : ExecutorManager → String → RuntimeRun → Stamp → ExecutorManager
dispatched m daemon_id run stamp =
    let m1 = record m {
      runtime = (mark_run_assigned m.runtime run.run_id (some daemon_id) stamp.now).0;
      daemons = set_busy m.daemons daemon_id (some run.run_id);
      run_stream_bytes = start_tracking m.run_stream_bytes run.run_id;
    } in
    store_and_publish m1 run.run_id "run.started" (started_payload run daemon_id) stamp

module _ (instant : String → ℕ) (sends : (daemon_id run_id : String) → Bool)
    (stamp : String → Stamp) where
  -- a run that could not be delivered
  unfoldable pub dispatch_failed : ExecutorManager → RuntimeRun → ExecutorManager
  dispatch_failed m run =
      let m1 = record m {
        runtime =
            (mark_run_failed instant m.runtime run.run_id "dispatch_failed"
              "Failed to deliver run to daemon" (stamp run.run_id).now).0;
      } in
      store_and_publish m1 run.run_id "run.error"
        (error_payload run.run_id "dispatch_failed" "Failed to deliver run to daemon")
        (stamp run.run_id)

  unfoldable pub deliver : ExecutorManager → String → RuntimeRun → ExecutorManager × Bool
  deliver m daemon_id run =
      if sends daemon_id run.run_id
      then (dispatched m daemon_id run (stamp run.run_id), true)
      else (dispatch_failed m run, false)

  -- the body of the loop over sessions, and whether it made progress
  unfoldable pub dispatch_to : ExecutorManager → String → (now : String) → ExecutorManager × Bool
  dispatch_to m daemon_id now =
      let claimed = claim_next_queued_run m.runtime daemon_id now in
      elim claimed.1 [
        | none ↦ (record m { runtime = claimed.0 }, false)
        | some run ↦ deliver (record m { runtime = claimed.0 }) daemon_id run
      ]

  unfoldable pub dispatch_round :
      ExecutorManager → List ExecutorSession → (now : String) → ExecutorManager × Bool
  dispatch_round m [] now = (m, false)
  dispatch_round m (session ∷ sessions) now =
      let (m', made_progress) = dispatch_to m session.daemon_id now in
      let (m'', more) = dispatch_round m' sessions now in (m'', made_progress || more)

  -- the loop; `none` is a loop that the fuel is not enough for
  unfoldable pub dispatch_loop : ℕ → ExecutorManager → (now : String) → Option ExecutorManager
  dispatch_loop zero m now = none
  dispatch_loop (suc fuel) m now =
      let round = dispatch_round m (list_available_daemons m) now in
      let next = dispatch_loop fuel round.0 now in
      if is_empty_list (list_available_daemons m)
      then some m
      else if round.1
      then next
      else some round.0

  -- fuel for a round that each daemon gets a run in, and one more
  unfoldable pub dispatch_pending : ExecutorManager → (now : String) → Option ExecutorManager
  dispatch_pending m now = dispatch_loop (suc (length (list_available_daemons m))) m now

pub data CancelResult : Type 0 where
  not_found cancelled cancelling : CancelResult

unfoldable pub cancelled_payload : RuntimeRun → Fields
cancelled_payload run = to_fields (
    ("run_id", str run.run_id)
    ∷ ("session_id", str run.session_id)
    ∷ ("stop_reason", str "cancelled")
    ∷ [])

-- the daemon that a run is with, if it is connected
unfoldable pub executor_of : ExecutorManager → RuntimeRun → Option ExecutorSession
executor_of m run = elim run.executor_id [
  | none ↦ none
  | some executor_id ↦ if is_nonempty executor_id then Dict.get m.daemons executor_id else none
]

abbrev target_id : Option ExecutorSession → Option String
target_id none = none
target_id (some session) = some session.daemon_id

-- `request_cancel`: the new state, the result, and the daemon that `run.cancel` is sent to
unfoldable pub request_cancel :
    (String → ℕ) → ExecutorManager → String → Stamp → ExecutorManager × CancelResult × Option String
request_cancel instant m run_id stamp = elim (get_run m.runtime run_id) [
  | none ↦ (m, not_found, none)
  | some run ↦
      if is_terminal run.status
      then (m, cancelled, none)
      else if is_queued run.status
      then (
        clear_run_stream_tracking
            (store_and_publish
              (record m { runtime = (mark_run_cancelled instant m.runtime run_id stamp.now).0 })
              run_id "run.completed" (cancelled_payload run) stamp)
            run_id,
        cancelled,
        none,
      )
      else (m, cancelling, target_id (executor_of m run))
]

-- `submit_permission_decision`: the daemon that the decision is sent to, and whether it got there
unfoldable pub submit_permission_decision :
    (String → Bool) → ExecutorManager → String → Option String × Bool
submit_permission_decision sends m run_id = elim (get_run m.runtime run_id) [
  | none ↦ (none, false)
  | some run ↦ elim (executor_of m run) [
    | none ↦ (none, false)
    | some session ↦ (some session.daemon_id, sends session.daemon_id)
  ]
]
