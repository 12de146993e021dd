-- ===== src/Runtime/Steps.antt =====
-- backend/app/runtime_state.py: each method that writes to runs or to the queue keeps them sound.
use pocage.Prelude.{
  ℕ, String, ◌≡◌, refl, Bool, true, false, not, Option, none, some, List, [], ◌∷◌, arith, ◌==◌,
  if◌then◌else◌, Option-cases, inl, inr,
}
use pocage.Dict
use pocage.Dict.{Dict}
use pocage.Runtime.State.{is_queued, RuntimeRun, RuntimeState}
use pocage.Runtime.Runs.{
  remove_run, remove_once, prune_session_runs, claim_run, claim_from, mark_run_assigned,
  mark_run_started, end_run,
}
use pocage.Runtime.Lifecycle.{
  IsDated, IsSound, Sound-put, Sound-remove_once, one_of-remove_once, not_queued,
  update_session-IsSound, write_run-IsSound, prune_session_runs-IsSound, remove_run-IsSound,
}
use pocage.Runtime.Cleanup.{
  remove_expired, prune_sessions, cleanup_runs, cleanup, expired_ids, pop_orphans,
}

claim_run-IsSound :
    (s : RuntimeState) (id : String) (run : RuntimeRun) (now : String)
    → IsSound s
    → Dict.get s.runs id ≡ some run
    → is_queued run.status ≡ true
    → IsSound (claim_run s id run now).0
unfolding claim_run
claim_run-IsSound s id run now h e u = update_session-IsSound _ run.session_id _ (
    Sound-put s.runs s.queued_runs (remove_once id s.queued_runs) id _ h (h.named id run e)
      (ground (arith, h.dated id run e)) (λ u. cc)
      (λ j ne k. ground (arith, one_of-remove_once j id s.queued_runs ne)))

pub claim_from-IsSound :
    (ids : List String) (s : RuntimeState) (daemon_id now : String)
    → IsSound s
    → IsSound (claim_from ids s daemon_id now).0
unfolding claim_from
claim_from-IsSound [] s daemon_id now h = h
claim_from-IsSound (id ∷ ids) s daemon_id now h =
    go (Dict.get s.runs id) refl
      (λ e.
        claim_from-IsSound ids (record s { queued_runs = remove_once id s.queued_runs }) daemon_id
          now (Sound-remove_once s.runs s.queued_runs id h e))
      (claim_from-IsSound ids s daemon_id now h)
  where
    pick :
        (u own : Bool) (stale other hit : RuntimeState × Option RuntimeRun)
        → (u ≡ false → IsSound stale.0)
        → IsSound other.0
        → (u ≡ true → IsSound hit.0)
        → IsSound (if not u then stale else if not own then other else hit).0
    pick false own stale other hit a b c = a refl
    pick true false stale other hit a b c = b
    pick true true stale other hit a b c = c refl

    go :
        (o : Option RuntimeRun)
        → Dict.get s.runs id ≡ o
        → (not_queued (Dict.get s.runs id) ≡ true
            → IsSound
                (claim_from ids
                  (record s { queued_runs = remove_once id s.queued_runs })
                  daemon_id
                  now).0)
        → IsSound (claim_from ids s daemon_id now).0
        → IsSound (claim_from (id ∷ ids) s daemon_id now).0
    go none e stale other = rw (e, claim_from) (stale (rw e))
    go (some run) e stale other =
        rw (e, claim_from)
          (pick (is_queued run.status) (run.daemon_id == daemon_id) _ _ _ (λ u. stale (rw (e, u)))
            other (λ u. claim_run-IsSound s id run now h e u))

pub mark_run_assigned-IsSound :
    (s : RuntimeState) (id : String) (executor_id : Option String) (now : String)
    → IsSound s
    → IsSound (mark_run_assigned s id executor_id now).0
unfolding mark_run_assigned
mark_run_assigned-IsSound s id executor_id now h = elim (Option-cases (Dict.get s.runs id)) [
  | inl e ↦ rw (e, mark_run_assigned) h
  | inr (run, e) ↦
      rw (e, mark_run_assigned)
        (update_session-IsSound _ run.session_id _
          (write_run-IsSound s id run _ h e refl refl refl))
]

pub mark_run_started-IsSound :
    (s : RuntimeState) (id : String) (executor_id : Option String) (session_id now : String)
    → IsSound s
    → IsSound (mark_run_started s id executor_id session_id now).0
unfolding mark_run_started
mark_run_started-IsSound s id executor_id session_id now h =
    elim (Option-cases (Dict.get s.runs id)) [
      | inl e ↦ rw (e, mark_run_started) h
      | inr (run, e) ↦
          rw (e, mark_run_started)
            (update_session-IsSound _ session_id _
              (write_run-IsSound s id run _ h e refl refl refl))
    ]

-- What a method writes when a run ends.
pub record Ends (finish : RuntimeRun → RuntimeRun) : Type 0 where
  pub same_id : (run : RuntimeRun) → (finish run).run_id ≡ run.run_id
  pub dated : (run : RuntimeRun) → IsDated (finish run)
  pub not_waiting : (run : RuntimeRun) → is_queued (finish run).status ≡ false

module _ (instant : String → ℕ) where
  pub end_run-IsSound :
      (s : RuntimeState) (id : String) (finish : RuntimeRun → RuntimeRun) (now : String)
      → Ends finish
      → IsSound s
      → IsSound (end_run instant s id finish now).0
  unfolding end_run
  end_run-IsSound s id finish now ends h = elim (Option-cases (Dict.get s.runs id)) [
    | inl e ↦ rw (e, end_run) h
    | inr (run, e) ↦
        rw (e, end_run)
          (prune_session_runs-IsSound instant _ run.session_id (
            update_session-IsSound _ run.session_id _ (
              write_run-IsSound s id run _ h e (ends.same_id run) (ends.dated run)
                (ends.not_waiting run))))
  ]

  remove_expired-IsSound :
      (s : RuntimeState) (ids : List String) → IsSound s → IsSound (remove_expired s ids)
  unfolding remove_expired
  remove_expired-IsSound s [] h = h
  remove_expired-IsSound s (id ∷ ids) h =
      remove_expired-IsSound (remove_run s id) ids (remove_run-IsSound s id h)

  prune_sessions-IsSound :
      (s : RuntimeState) (ids : List String) → IsSound s → IsSound (prune_sessions instant s ids)
  unfolding prune_sessions
  prune_sessions-IsSound s [] h = h
  prune_sessions-IsSound s (id ∷ ids) h =
      prune_sessions-IsSound (prune_session_runs instant s id) ids
        (prune_session_runs-IsSound instant s id h)

  pub cleanup-IsSound : (s : RuntimeState) (now : ℕ) → IsSound s → IsSound (cleanup instant s now).0
  unfolding cleanup cleanup_runs pop_orphans
  cleanup-IsSound s now h =
      prune_sessions-IsSound _ _ (remove_expired-IsSound s (expired_ids instant s now) h)
