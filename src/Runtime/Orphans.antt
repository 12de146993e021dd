-- ===== src/Runtime/Orphans.antt =====
-- backend/app/runtime_state.py: what `cleanup` keeps of the tables that go with a run.
use pocage.Prelude.{
  if_true, if_false, ℕ, String, ◌≡◌, refl, Bool, true, false, none, List, [], ◌∷◌, ◌==◌, arith,
  eq_iff, sym, ap, ◌∙◌, is_some, Bool-cases, inl, inr, if◌then◌else◌,
}
use pocage.Dict
use pocage.Dict.{Dict, get-pop}
use pocage.Runtime.State.{RuntimeRun, RuntimeState}
use pocage.Runtime.Runs.{remove_run, remove_runs, prune_session_runs}
use pocage.Runtime.Cleanup.{
  remove_expired, expired_ids, session_ids, prune_sessions, pop_missing, pop_orphans, cleanup_runs,
  cleanup,
}

not_true : true ≡ false → ⊥
not_true h = absurd (ground arith)

get-pop_missing {ℓ κ} :
    {A : Type ℓ} {B : Type κ} (runs : Dict A) (d : Dict B) (k : String)
    → Dict.get (pop_missing runs d) k ≡ (if Dict.has runs k then Dict.get d k else none)
unfolding pop_missing Dict.get
get-pop_missing runs [] k = ground arith
get-pop_missing runs ((j, b) ∷ d) k = ground (arith, eq_iff j k, get-pop_missing runs d k)

-- What is stored of a run that is kept is what was stored.
Keeps : RuntimeState → RuntimeState → String → Type 0
Keeps s u k =
    Dict.has u.runs k ≡ true
    → (Dict.has s.runs k ≡ true)
      × (Dict.get u.run_events k ≡ Dict.get s.run_events k)
      × (Dict.get u.permission_requests k ≡ Dict.get s.permission_requests k)

Keeps-trans : (s u v : RuntimeState) (k : String) → Keeps s u k → Keeps u v k → Keeps s v k
unfolding Keeps
Keeps-trans s u v k f g h = let b = g h in let a = f b.0 in (a.0, b.1 ∙ a.1, b.2 ∙ a.2)

Keeps-refl : (s : RuntimeState) (k : String) → Keeps s s k
unfolding Keeps
Keeps-refl s k h = (h, refl, refl)

remove_run-Keeps : (s : RuntimeState) (id k : String) → Keeps s (remove_run s id) k
unfolding Keeps remove_run
remove_run-Keeps s id k h = elim (Bool-cases (id == k)) [
  | inl e ↦ absurd (
      not_true
        (sym h ∙ ap is_some (get-pop s.runs id k ∙ if_true (id == k) none (Dict.get s.runs k) e)))
  | inr e ↦ (
    ap is_some (sym (get-pop s.runs id k ∙ if_false (id == k) none (Dict.get s.runs k) e)) ∙ h,
    get-pop s.run_events id k ∙ if_false (id == k) none _ e,
    get-pop s.permission_requests id k ∙ if_false (id == k) none _ e,
  )
]

remove_runs-Keeps :
    (s : RuntimeState) (runs : List RuntimeRun) (k : String) → Keeps s (remove_runs s runs) k
unfolding remove_runs
remove_runs-Keeps s [] k = Keeps-refl s k
remove_runs-Keeps s (run ∷ rest) k =
    Keeps-trans s (remove_run s run.run_id) _ k (remove_run-Keeps s run.run_id k)
      (remove_runs-Keeps (remove_run s run.run_id) rest k)

remove_expired-Keeps :
    (s : RuntimeState) (ids : List String) (k : String) → Keeps s (remove_expired s ids) k
unfolding remove_expired
remove_expired-Keeps s [] k = Keeps-refl s k
remove_expired-Keeps s (id ∷ rest) k =
    Keeps-trans s (remove_run s id) _ k (remove_run-Keeps s id k)
      (remove_expired-Keeps (remove_run s id) rest k)

choose-Keeps :
    (c : Bool) (s u : RuntimeState) (k : String) → Keeps s u k → Keeps s (if c then s else u) k
choose-Keeps true s u k h = Keeps-refl s k
choose-Keeps false s u k h = h

prune_session_runs-Keeps :
    (instant : String → ℕ) (s : RuntimeState) (id k : String)
    → Keeps s (prune_session_runs instant s id) k
unfolding prune_session_runs
prune_session_runs-Keeps instant s id k = choose-Keeps _ s _ k (remove_runs-Keeps s _ k)

prune_sessions-Keeps :
    (instant : String → ℕ) (s : RuntimeState) (ids : List String) (k : String)
    → Keeps s (prune_sessions instant s ids) k
unfolding prune_sessions
prune_sessions-Keeps instant s [] k = Keeps-refl s k
prune_sessions-Keeps instant s (id ∷ rest) k =
    Keeps-trans s (prune_session_runs instant s id) _ k (prune_session_runs-Keeps instant s id k)
      (prune_sessions-Keeps instant (prune_session_runs instant s id) rest k)

cleanup_runs-Keeps :
    (instant : String → ℕ) (s : RuntimeState) (now : ℕ) (k : String)
    → Keeps s (cleanup_runs instant s now) k
unfolding cleanup_runs
cleanup_runs-Keeps instant s now k =
    let u = remove_expired s (expired_ids instant s now) in
    Keeps-trans s u _ k (remove_expired-Keeps s (expired_ids instant s now) k)
      (prune_sessions-Keeps instant u (session_ids (Dict.values u.runs)) k)

same_if :
    {A : Type 0} (c : Bool) (x y z : A)
    → (c ≡ true → x ≡ y)
    → (if c then x else z) ≡ (if c then y else z)
same_if true x y z h = h refl
same_if false x y z h = refl

-- After `cleanup` the stored events and the permission requests of a run that is kept are those from before, and those
-- of every other run are gone.
pub cleanup-drops_orphans :
    (instant : String → ℕ) (s : RuntimeState) (now : ℕ) (run_id : String)
    → let t = (cleanup instant s now).0 in
      (Dict.get t.run_events run_id
        ≡ (if Dict.has t.runs run_id then Dict.get s.run_events run_id else none))
      × (Dict.get t.permission_requests run_id
          ≡ (if Dict.has t.runs run_id then Dict.get s.permission_requests run_id else none))
unfolding cleanup pop_orphans Keeps
cleanup-drops_orphans instant s now run_id =
    let u = cleanup_runs instant s now in
    (
      get-pop_missing u.runs u.run_events run_id
          ∙ same_if _ _ _ none (λ h. (cleanup_runs-Keeps instant s now run_id h).1),
      get-pop_missing u.runs u.permission_requests run_id
          ∙ same_if _ _ _ none (λ h. (cleanup_runs-Keeps instant s now run_id h).2),
    )
