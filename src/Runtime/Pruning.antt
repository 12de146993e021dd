-- ===== src/Runtime/Pruning.antt =====
-- backend/app/runtime_state.py: what `_prune_session_runs_locked` removes.
use pocage.Prelude.{
  ℕ, ◌≤◌, String, ◌≡◌, refl, sym, ap, ◌∙◌, Bool, not, some, List, [], ◌∷◌, map, arith, ◌==◌,
  eq_refl, one_of, if◌then◌else◌, Bool-cases, inl, inr, leb, leb→le, length, filter, filter-append,
  drop, take, take-append-drop, length-append, length-take, length-filter-le, sort_by,
  length-filter-sort, All,
}
use pocage.Dict
use pocage.Dict.{Dict, Distinct-entries, get-pop}
use pocage.Runtime.State.{RuntimeRun, RuntimeState}
use pocage.Runtime.Runs.{remove_run, remove_runs, is_terminal_of, is_newer, prune_session_runs}
use pocage.Runtime.Lifecycle.{Sound, IsSound}

-- The terminal runs of a session, in the order of the table.
abbrev pub terminal_runs : RuntimeState → String → List RuntimeRun
terminal_runs s session_id = filter (is_terminal_of session_id) (Dict.values s.runs)

abbrev ids_of : List RuntimeRun → List String
ids_of = map (λ run. run.run_id)

abbrev kept : List RuntimeRun → RuntimeRun → Bool
kept removed run = not (one_of run.run_id (ids_of removed))

abbrev pub IsFiled : Dict RuntimeRun → Type 0
IsFiled = All (λ e. e.1.run_id ≡ e.0)

IsFiled-entries :
    (runs d : Dict RuntimeRun) (q : List String)
    → Sound runs q
    → All (λ e. Dict.get runs e.0 ≡ some e.1) d
    → IsFiled d
IsFiled-entries runs [] q s a = tt
IsFiled-entries runs ((id, run) ∷ d) q s a = (s.named id run a.0, IsFiled-entries runs d q s a.1)

pub IsSound-IsFiled : (s : RuntimeState) → IsSound s → IsFiled s.runs
IsSound-IsFiled s h =
    IsFiled-entries s.runs s.runs s.queued_runs h (Distinct-entries s.runs h.distinct)

filter-pop :
    (t : RuntimeRun → Bool) (id : String) (runs : Dict RuntimeRun)
    → IsFiled runs
    → filter t (Dict.values (Dict.pop runs id))
      ≡ filter (λ run. not (run.run_id == id)) (filter t (Dict.values runs))
unfolding Dict.pop
filter-pop t id [] f = refl
filter-pop t id ((j, run) ∷ runs) f = ground (arith, filter-pop t id runs f.1)

pop-IsFiled : (id : String) (runs : Dict RuntimeRun) → IsFiled runs → IsFiled (Dict.pop runs id)
unfolding Dict.pop
pop-IsFiled id [] f = tt
pop-IsFiled id ((j, run) ∷ runs) f = ground (arith, pop-IsFiled id runs f.1)

filter-true : (xs : List RuntimeRun) → filter (kept []) xs ≡ xs
filter-true [] = refl
filter-true (x ∷ xs) = ap (◌∷◌ x) (filter-true xs)

filter-kept :
    (run : RuntimeRun) (rest xs : List RuntimeRun)
    → filter (kept rest) (filter (λ r. not (r.run_id == run.run_id)) xs)
      ≡ filter (kept (run ∷ rest)) xs
filter-kept run rest [] = refl
filter-kept run rest (x ∷ xs) = ground (arith, filter-kept run rest xs)

terminal_runs-remove :
    (removed : List RuntimeRun) (s : RuntimeState) (session_id : String)
    → IsFiled s.runs
    → terminal_runs (remove_runs s removed) session_id
      ≡ filter (kept removed) (terminal_runs s session_id)
unfolding remove_runs remove_run
terminal_runs-remove [] s session_id h = sym (filter-true (terminal_runs s session_id))
terminal_runs-remove (run ∷ removed) s session_id h =
    terminal_runs-remove removed (remove_run s run.run_id) session_id
      (pop-IsFiled run.run_id s.runs h)
    ∙ ap (filter (kept removed)) (filter-pop (is_terminal_of session_id) run.run_id s.runs h)
    ∙ filter-kept run removed (terminal_runs s session_id)

none_kept_more :
    (run : RuntimeRun) (removed xs : List RuntimeRun)
    → filter (kept removed) xs ≡ []
    → filter (kept (run ∷ removed)) xs ≡ []
none_kept_more run removed [] h = refl
none_kept_more run removed (x ∷ xs) h = ground (arith, none_kept_more run removed xs)

none_kept : (removed : List RuntimeRun) → filter (kept removed) removed ≡ []
none_kept [] = refl
none_kept (run ∷ removed) =
    rw (eq_refl run.run_id) (none_kept_more run removed removed (none_kept removed))

length-kept : (n : ℕ) (xs : List RuntimeRun) → length (filter (kept (drop n xs)) xs) ≤ n
length-kept n xs = omega (
  arith,
  ap (λ l. length (filter (kept (drop n xs)) l)) (sym (take-append-drop n xs)),
  ap length (filter-append (kept (drop n xs)) (take n xs) (drop n xs)),
  length-append (filter (kept (drop n xs)) (take n xs)) (filter (kept (drop n xs)) (drop n xs)),
  ap length (none_kept (drop n xs)),
  length-take n xs,
  length-filter-le (kept (drop n xs)) (take n xs),
)

-- From a state in which each run is filed under its own id, pruning leaves a session at most
-- `max_local_runs_per_session` terminal runs.
pub prune_session_runs-bounded :
    (instant : String → ℕ) (s : RuntimeState) (session_id : String)
    → IsFiled s.runs
    → length (terminal_runs (prune_session_runs instant s session_id) session_id)
      ≤ s.limits.max_local_runs_per_session
unfolding prune_session_runs
prune_session_runs-bounded instant s session_id h =
    split (terminal_runs s session_id) s.limits.max_local_runs_per_session refl
  where
    split :
        (rows : List RuntimeRun) (most : ℕ)
        → terminal_runs s session_id ≡ rows
        → length (
            terminal_runs
              (if leb (length rows) most
                then s
                else remove_runs s (drop most (sort_by (is_newer instant) rows)))
              session_id)
          ≤ most
    split rows most e = elim (Bool-cases (leb (length rows) most)) [
      | inl fits ↦ rw (fits, e) (leb→le (length rows) most fits)
      | inr more ↦
          rw
            (
              more,
              terminal_runs-remove (drop most (sort_by (is_newer instant) rows)) s session_id h,
              e,
            )
            (omega (
              arith,
              length-filter-sort (kept (drop most (sort_by (is_newer instant) rows)))
                  (is_newer instant) rows,
              length-kept most (sort_by (is_newer instant) rows),
            ))
    ]
