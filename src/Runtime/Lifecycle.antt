-- ===== src/Runtime/Lifecycle.antt =====
-- backend/app/runtime_state.py: what every method keeps true of the runs and their queue.
use pocage.Prelude.{
  ℕ, String, ◌≡◌, refl, ◌∙◌, Bool, true, false, not, ◌||◌, Option, none, some, List, [], ◌∷◌, ◌++◌,
  arith, ◌==◌, eq_iff, eq_refl, one_of, is_some, if◌then◌else◌,
}
use pocage.Dict
use pocage.Dict.{Dict, get-put, get-pop, put-Distinct, pop-Distinct, get-put_self}
use pocage.Json.Defs.{Value}
use pocage.Runtime.State.{is_queued, is_terminal, RuntimeRun, Session, RuntimeState}
use pocage.Runtime.Runs.{
  without, remove_once, remove_run, remove_runs, prune_session_runs, update_session, create_run,
  CreatedRun,
}

-- A run has an end time exactly when its status is terminal.
abbrev pub IsDated : RuntimeRun → Type 0
IsDated run = is_some run.terminal_at ≡ is_terminal run.status

-- The table files each run once, under its id, dates the runs that have ended, and no queued run is missing
-- from the queue.
pub record Sound (runs : Dict RuntimeRun) (queue : List String) : Type 0 where
  pub distinct : Dict.Distinct runs
  pub named : (id : String) (run : RuntimeRun) → Dict.get runs id ≡ some run → run.run_id ≡ id
  pub dated : (id : String) (run : RuntimeRun) → Dict.get runs id ≡ some run → IsDated run
  pub waiting :
      (id : String) (run : RuntimeRun)
      → Dict.get runs id ≡ some run
      → is_queued run.status ≡ true
      → one_of id queue ≡ true

abbrev pub IsSound : RuntimeState → Type 0
IsSound s = Sound s.runs s.queued_runs

one_of-without :
    (j id : String) (q : List String) → (id == j) ≡ false → one_of j (without id q) ≡ one_of j q
one_of-without j id [] h = refl
one_of-without j id (i ∷ q) h =
    ground (arith, eq_iff i id, eq_iff j i, eq_iff id j, one_of-without j id q h)

pub one_of-remove_once :
    (j id : String) (q : List String) → (id == j) ≡ false → one_of j (remove_once id q) ≡ one_of j q
unfolding remove_once
one_of-remove_once j id [] h = refl
one_of-remove_once j id (i ∷ q) h =
    ground (arith, eq_iff i id, eq_iff j i, eq_iff id j, one_of-remove_once j id q h)

one_of-snoc : (j id : String) (q : List String) → one_of j (q ++ id ∷ []) ≡ one_of j q || j == id
one_of-snoc j id [] = ground arith
one_of-snoc j id (i ∷ q) = ground (arith, one_of-snoc j id q)

-- Writing a run keeps the table sound over a queue that lost at most ids other than the queued ones.
pub Sound-put :
    (runs : Dict RuntimeRun) (q q' : List String) (id : String) (run : RuntimeRun)
    → Sound runs q
    → run.run_id ≡ id
    → IsDated run
    → (is_queued run.status ≡ true → one_of id q' ≡ true)
    → ((j : String) → (id == j) ≡ false → one_of j q ≡ true → one_of j q' ≡ true)
    → Sound (Dict.put runs id run) q'
Sound-put runs q q' id run s n d w keep = record {
  distinct = put-Distinct runs id run s.distinct;
  named = λ j r h. ground (arith, get-put runs id j run, eq_iff id j, s.named j r);
  dated = λ j r h. ground (arith, get-put runs id j run, s.dated j r);
  waiting = λ j r h u. ground (arith, get-put runs id j run, eq_iff id j, s.waiting j r, keep j);
}

Sound-pop :
    (runs : Dict RuntimeRun) (q : List String) (id : String)
    → Sound runs q
    → Sound (Dict.pop runs id) (without id q)
Sound-pop runs q id s = record {
  distinct = pop-Distinct runs id s.distinct;
  named = λ j r h. ground (arith, get-pop runs id j, s.named j r);
  dated = λ j r h. ground (arith, get-pop runs id j, s.dated j r);
  waiting = λ j r h u. ground (arith, get-pop runs id j, s.waiting j r, one_of-without j id q);
}

abbrev pub not_queued : Option RuntimeRun → Bool
not_queued none = true
not_queued (some run) = not (is_queued run.status)

pub Sound-remove_once :
    (runs : Dict RuntimeRun) (q : List String) (id : String)
    → Sound runs q
    → not_queued (Dict.get runs id) ≡ true
    → Sound runs (remove_once id q)
Sound-remove_once runs q id s stale = record {
  distinct = s.distinct;
  named = s.named;
  dated = s.dated;
  waiting = λ j r h u. ground (arith, s.waiting j r, one_of-remove_once j id q, eq_iff id j);
}

update_session-runs :
    (s : RuntimeState) (id : String) (f : Session → Session)
    → ((update_session s id f).runs ≡ s.runs)
      × ((update_session s id f).queued_runs ≡ s.queued_runs)
unfolding update_session
update_session-runs s id f = ground arith

pub update_session-IsSound :
    (s : RuntimeState) (id : String) (f : Session → Session)
    → IsSound s
    → IsSound (update_session s id f)
update_session-IsSound s id f h =
    rw ((update_session-runs s id f).0, (update_session-runs s id f).1) h

pub remove_run-IsSound : (s : RuntimeState) (id : String) → IsSound s → IsSound (remove_run s id)
unfolding remove_run
remove_run-IsSound s id h = Sound-pop s.runs s.queued_runs id h

pub remove_runs-IsSound :
    (s : RuntimeState) (runs : List RuntimeRun) → IsSound s → IsSound (remove_runs s runs)
unfolding remove_runs
remove_runs-IsSound s [] h = h
remove_runs-IsSound s (run ∷ rest) h =
    remove_runs-IsSound (remove_run s run.run_id) rest (remove_run-IsSound s run.run_id h)

choose_IsSound :
    (b : Bool) (s t : RuntimeState) → IsSound s → IsSound t → IsSound (if b then s else t)
choose_IsSound true s t h k = h
choose_IsSound false s t h k = k

pub prune_session_runs-IsSound :
    (instant : String → ℕ) (s : RuntimeState) (session_id : String)
    → IsSound s
    → IsSound (prune_session_runs instant s session_id)
unfolding prune_session_runs
prune_session_runs-IsSound instant s session_id h =
    choose_IsSound _ s _ h (remove_runs-IsSound s _ h)

pub create_run-IsSound :
    (s : RuntimeState) (ids : CreatedRun) (now session_id daemon_id cwd content : String)
    (prompt_items mcp_servers : List Value)
    → IsSound s
    → IsSound (create_run s ids now session_id daemon_id cwd content prompt_items mcp_servers)
unfolding create_run
create_run-IsSound s ids now session_id daemon_id cwd content prompt_items mcp_servers h =
    update_session-IsSound _ session_id _ (
      Sound-put s.runs s.queued_runs _ ids.run_id _ h refl refl
        (λ _. ground (arith, one_of-snoc ids.run_id ids.run_id s.queued_runs, eq_refl ids.run_id))
        (λ j ne k. ground (arith, one_of-snoc j ids.run_id s.queued_runs)))

-- What the ways to write a run that is there have in common.
pub write_run-IsSound :
    (s : RuntimeState) (id : String) (run run' : RuntimeRun)
    → IsSound s
    → Dict.get s.runs id ≡ some run
    → run'.run_id ≡ run.run_id
    → IsDated run'
    → is_queued run'.status ≡ false
    → Sound (Dict.put s.runs id run') s.queued_runs
write_run-IsSound s id run run' h e n d w =
    Sound-put s.runs s.queued_runs s.queued_runs id run' h (n ∙ h.named id run e) d
      (λ u. ground arith) (λ j ne k. k)
