-- ===== src/Runtime/Runs.antt =====
-- backend/app/runtime_state.py: the runs of `RuntimeState` and their queue. The argument `instant`
-- stands for `_parse_timestamp` on stamps that `utc_now` wrote: the moment, in microseconds.
use pocage.Prelude.{
  ℕ, String, Bool, not, ◌&&◌, ◌||◌, Option, none, some, List, [], ◌∷◌, ◌++◌, filter, any, drop,
  length, ltb, leb, same, ◌==◌, sort_by, if◌then◌else◌,
}
use pocage.Text.{strip, or_else}
use pocage.Dict
use pocage.Dict.{Dict}
use pocage.Json.Defs.{Value}
use pocage.Runtime.Prompt.{normalize_prompt_items, prompt_items_to_user_content}
use pocage.Runtime.State.{
  Status, idle, queued, assigned, running, completed, cancelled, failed, executor_disconnected,
  is_active, is_terminal, is_queued, RuntimeRun, Session, RuntimeState, text_le,
}

unfoldable pub session_has_active_run : RuntimeState → String → Bool
session_has_active_run s session_id =
    any (λ run. run.session_id == session_id && is_active run.status) (Dict.values s.runs)

unfoldable pub session_has_local_run : RuntimeState → String → Bool
session_has_local_run s session_id = any (λ run. run.session_id == session_id) (Dict.values s.runs)

-- `_mark_run_terminal_locked`
unfoldable pub terminal_run : RuntimeRun → Status → String → RuntimeRun
terminal_run run next_status now = record run {
  status = next_status;
  updated_at = now;
  terminal_at = some now;
}

-- `while run_id in queue: queue.remove(run_id)`
abbrev pub without : String → List String → List String
without run_id = filter (λ queued_id. not (queued_id == run_id))

-- list.remove: the first occurrence
unfoldable pub remove_once : String → List String → List String
remove_once run_id [] = []
remove_once run_id (i ∷ is) = if i == run_id then is else i ∷ remove_once run_id is

unfoldable pub remove_run : RuntimeState → String → RuntimeState
remove_run s run_id = record s {
  runs = Dict.pop s.runs run_id;
  run_events = Dict.pop s.run_events run_id;
  run_event_seq = Dict.pop s.run_event_seq run_id;
  permission_requests = Dict.pop s.permission_requests run_id;
  queued_runs = without run_id s.queued_runs;
}

unfoldable pub remove_runs : RuntimeState → List RuntimeRun → RuntimeState
remove_runs s [] = s
remove_runs s (run ∷ rest) = remove_runs (remove_run s run.run_id) rest

-- the terminal runs of a session
unfoldable pub is_terminal_of : String → RuntimeRun → Bool
is_terminal_of session_id run = run.session_id == session_id && is_terminal run.status

-- the sort key `(_parse_timestamp(run.updated_at), run.run_id)`, newest first
unfoldable pub is_newer : (String → ℕ) → RuntimeRun → RuntimeRun → Bool
is_newer instant a b =
    ltb (instant b.updated_at) (instant a.updated_at)
    || (same (instant a.updated_at) (instant b.updated_at) && text_le b.run_id a.run_id)

unfoldable pub prune_session_runs : (String → ℕ) → RuntimeState → String → RuntimeState
prune_session_runs instant s session_id =
    let terminal_runs = filter (is_terminal_of session_id) (Dict.values s.runs) in
    if leb (length terminal_runs) s.limits.max_local_runs_per_session
    then s
    else remove_runs s
        (drop s.limits.max_local_runs_per_session (sort_by (is_newer instant) terminal_runs))

-- the session of a run is written to only if it is there
unfoldable pub update_session : RuntimeState → String → (Session → Session) → RuntimeState
update_session s session_id change = elim (Dict.get s.sessions session_id) [
  | none ↦ s
  | some session ↦ record s { sessions = Dict.put s.sessions session_id (change session) }
]

abbrev pub put_run : RuntimeState → String → RuntimeRun → RuntimeState
put_run s run_id run = record s { runs = Dict.put s.runs run_id run }

pub record CreatedRun : Type 0 where
  pub run_id : String
  pub user_message_id : String
  pub assistant_message_id : String

-- `create_run`; the ids are three results of `new_id`
unfoldable pub create_run :
    RuntimeState
    → CreatedRun
    → String
    → (session_id daemon_id cwd content : String) → List Value
    → List Value
    → RuntimeState
create_run s ids now session_id daemon_id cwd content prompt_items mcp_servers =
    let normalized_items = normalize_prompt_items prompt_items in
    update_session
      (record s {
        runs = Dict.put s.runs ids.run_id (record {
          run_id = ids.run_id;
          session_id = session_id;
          daemon_id = daemon_id;
          cwd = cwd;
          content = content;
          prompt_items = normalized_items;
          mcp_servers = mcp_servers;
          user_content = or_else (strip content) (prompt_items_to_user_content normalized_items);
          user_message_id = ids.user_message_id;
          assistant_message_id = ids.assistant_message_id;
          created_at = now;
          updated_at = now;
          status = queued;
          executor_id = none;
          error_code = none;
          error_message = none;
          terminal_at = none;
        });
        queued_runs = s.queued_runs ++ ids.run_id ∷ [];
        remote_transcript_items = Dict.pop s.remote_transcript_items session_id;
      })
      session_id (λ session. record session { status = queued; updated_at = now })

-- a queued run that `claim_next_queued_run` hands out
unfoldable pub claim_run : RuntimeState → String → RuntimeRun → String → RuntimeState × RuntimeRun
claim_run s run_id run now =
    let run' = record run { status = assigned; updated_at = now } in
    (
      update_session
          (put_run (record s { queued_runs = remove_once run_id s.queued_runs }) run_id run')
          run.session_id (λ session. record session { status = assigned; updated_at = now }),
      run',
    )

-- the loop of `claim_next_queued_run`, over the copy of the queue that it starts with
unfoldable pub claim_from :
    List String → RuntimeState → String → String → RuntimeState × Option RuntimeRun
claim_from [] s daemon_id now = (s, none)
claim_from (run_id ∷ rest) s daemon_id now =
    let stale =
      claim_from rest (record s { queued_runs = remove_once run_id s.queued_runs }) daemon_id now in
    let other = claim_from rest s daemon_id now in
    elim (Dict.get s.runs run_id) [
      | none ↦ stale
      | some run ↦
          if not (is_queued run.status)
          then stale
          else if not (run.daemon_id == daemon_id)
          then other
          else (let (s', run') = claim_run s run_id run now in (s', some run'))
    ]

unfoldable pub claim_next_queued_run :
    RuntimeState → String → String → RuntimeState × Option RuntimeRun
claim_next_queued_run s daemon_id now = claim_from s.queued_runs s daemon_id now

-- `get_run`; the record stands for the dict of `_serialize_run_locked`
unfoldable pub get_run : RuntimeState → String → Option RuntimeRun
get_run s run_id = Dict.get s.runs run_id

-- `mark_run_assigned`
unfoldable pub mark_run_assigned :
    RuntimeState → String → Option String → String → RuntimeState × Option RuntimeRun
mark_run_assigned s run_id executor_id now = elim (Dict.get s.runs run_id) [
  | none ↦ (s, none)
  | some run ↦
      (let run' = record run {
        status = assigned;
        executor_id = executor_id;
        terminal_at = none;
        updated_at = now;
      } in
        (
          update_session (put_run s run_id run') run.session_id (λ session. record session {
            status = assigned;
            executor_id = executor_id;
            updated_at = now;
          }),
          some run',
        ))
]

-- `mark_run_started`: the session is the one that the daemon names
unfoldable pub mark_run_started :
    RuntimeState → String → Option String → String → String → RuntimeState × Option RuntimeRun
mark_run_started s run_id executor_id session_id now = elim (Dict.get s.runs run_id) [
  | none ↦ (s, none)
  | some run ↦
      (let run' = record run {
        status = running;
        executor_id = executor_id;
        terminal_at = none;
        updated_at = now;
      } in
        (
          update_session (put_run s run_id run') session_id (λ session. record session {
            status = running;
            executor_id = executor_id;
            updated_at = now;
          }),
          some run',
        ))
]

-- what the four ways to end a run share
unfoldable pub end_run :
    (String → ℕ)
    → RuntimeState
    → String
    → (RuntimeRun → RuntimeRun)
    → String
    → RuntimeState × Option RuntimeRun
end_run instant s run_id finish now = elim (Dict.get s.runs run_id) [
  | none ↦ (s, none)
  | some run ↦ (
    prune_session_runs instant
        (update_session (put_run s run_id (finish run)) run.session_id
          (λ session. record session { status = idle; executor_id = none; updated_at = now }))
        run.session_id,
    some (finish run),
  )
]

unfoldable pub mark_run_completed :
    (String → ℕ) → RuntimeState → String → String → String → RuntimeState × Option RuntimeRun
mark_run_completed instant s run_id stop_reason now =
    let next_status = if stop_reason == "cancelled" then cancelled else completed in
    end_run instant s run_id (λ run. terminal_run run next_status now) now

unfoldable pub mark_run_failed :
    (String → ℕ)
    → RuntimeState
    → String
    → String
    → String
    → String
    → RuntimeState × Option RuntimeRun
mark_run_failed instant s run_id error_code error_message now =
    end_run instant s run_id
      (λ run. record (terminal_run run failed now) {
        error_code = some error_code;
        error_message = some error_message;
      })
      now

unfoldable pub mark_run_cancelled :
    (String → ℕ) → RuntimeState → String → String → RuntimeState × Option RuntimeRun
mark_run_cancelled instant s run_id now =
    end_run instant s run_id (λ run. terminal_run run cancelled now) now

unfoldable pub mark_run_executor_disconnected :
    (String → ℕ) → RuntimeState → String → String → RuntimeState × Option RuntimeRun
mark_run_executor_disconnected instant s run_id now =
    end_run instant s run_id (λ run. terminal_run run executor_disconnected now) now
