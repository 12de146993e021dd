-- ===== src/Runtime/Cleanup.antt =====
-- backend/app/runtime_state.py: `cleanup`. `now` is a moment in microseconds, as `instant` gives.
use pocage.Prelude.{
  ℕ, ◌+◌, ◌-◌, ◌*◌, String, Bool, false, not, ◌&&◌, ◌||◌, none, some, List, [], ◌∷◌, map, filter,
  length, leb, if◌then◌else◌,
}
use pocage.Dict
use pocage.Dict.{Dict}
use pocage.Runtime.State.{RuntimeRun, RuntimeState, RemoteTranscriptCache, is_terminal}
use pocage.Runtime.Runs.{remove_run, prune_session_runs, session_has_local_run}
use pocage.Runtime.Sessions.{add_id}

abbrev pub microseconds : ℕ → ℕ
microseconds seconds = seconds * 1000000

-- stamp <= now - ttl
unfoldable pub is_before : (String → ℕ) → String → ℕ → ℕ → Bool
is_before instant stamp ttl_seconds now = leb (instant stamp + microseconds ttl_seconds) now

unfoldable pub is_expired : (String → ℕ) → ℕ → ℕ → RuntimeRun → Bool
is_expired instant ttl_seconds now run =
    is_terminal run.status
    && elim run.terminal_at [ none ↦ false | some stamp ↦ is_before instant stamp ttl_seconds now ]

unfoldable pub remove_expired : RuntimeState → List String → RuntimeState
remove_expired s [] = s
remove_expired s (run_id ∷ rest) = remove_expired (remove_run s run_id) rest

abbrev pub expired_ids : (String → ℕ) → RuntimeState → ℕ → List String
expired_ids instant s now =
    map (λ e. e.0)
      (filter (λ e. is_expired instant s.limits.completed_run_ttl_seconds now e.1) s.runs)

-- {run.session_id for run in self._runs.values()}
unfoldable pub session_ids : List RuntimeRun → List String
session_ids [] = []
session_ids (run ∷ rest) = add_id run.session_id (session_ids rest)

unfoldable pub prune_sessions : (String → ℕ) → RuntimeState → List String → RuntimeState
prune_sessions instant s [] = s
prune_sessions instant s (session_id ∷ rest) =
    prune_sessions instant (prune_session_runs instant s session_id) rest

-- the entries of a table whose run is not there go
unfoldable pub pop_missing {ℓ κ} : {A : Type ℓ} {B : Type κ} → Dict A → Dict B → Dict B
pop_missing runs [] = []
pop_missing runs ((run_id, b) ∷ rest) =
    let kept = pop_missing runs rest in if Dict.has runs run_id then (run_id, b) ∷ kept else kept

-- `_run_event_seq` loses the keys that `_run_events` loses
unfoldable pub pop_keys {ℓ} : {B : Type ℓ} → List String → Dict B → Dict B
pop_keys [] d = d
pop_keys (k ∷ ks) d = pop_keys ks (Dict.pop d k)

abbrev missing_keys {ℓ κ} : {A : Type ℓ} {B : Type κ} → Dict A → Dict B → List String
missing_keys runs d = filter (λ k. not (Dict.has runs k)) (Dict.keys d)

unfoldable pub pop_orphans : RuntimeState → RuntimeState
pop_orphans s = record s {
  run_events = pop_missing s.runs s.run_events;
  run_event_seq = pop_keys (missing_keys s.runs s.run_events) s.run_event_seq;
  permission_requests = pop_missing s.runs s.permission_requests;
}

unfoldable pub is_stale_cache :
    (String → ℕ) → RuntimeState → ℕ → String → RemoteTranscriptCache → Bool
is_stale_cache instant s now session_id cache =
    not (Dict.has s.sessions session_id)
    || session_has_local_run s session_id
    || is_before instant cache.cached_at s.limits.remote_transcript_ttl_seconds now

unfoldable pub stale_remote_sessions : (String → ℕ) → RuntimeState → ℕ → List String
stale_remote_sessions instant s now =
    map (λ e. e.0) (filter (λ e. is_stale_cache instant s now e.0 e.1) s.remote_transcript_items)

pub record Removed : Type 0 where
  pub removed_runs : ℕ
  pub removed_remote_sessions : ℕ

-- the two loops over runs
unfoldable pub cleanup_runs : (String → ℕ) → RuntimeState → ℕ → RuntimeState
cleanup_runs instant s now =
    let s' = remove_expired s (expired_ids instant s now) in
    prune_sessions instant s' (session_ids (Dict.values s'.runs))

unfoldable pub cleanup : (String → ℕ) → RuntimeState → ℕ → RuntimeState × Removed
cleanup instant s now =
    let expired = expired_ids instant s now in
    let s' = remove_expired s expired in
    let s'' = cleanup_runs instant s now in
    let t = pop_orphans s'' in
    let stale = stale_remote_sessions instant t now in
    (
      record t { remote_transcript_items = pop_keys stale t.remote_transcript_items },
      record {
        removed_runs = length expired + (length s'.runs - length s''.runs);
        removed_remote_sessions = length stale;
      },
    )
