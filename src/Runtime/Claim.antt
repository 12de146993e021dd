-- ===== src/Runtime/Claim.antt =====
-- backend/app/runtime_state.py: `claim_next_queued_run` serves a daemon's runs first in, first out.
use pocage.Prelude.{
  String, ◌≡◌, refl, sym, ◌∙◌, Bool, true, false, ◌||◌, Option, none, some, List, [], ◌∷◌, ◌++◌,
  append_assoc, arith, ◌==◌, eq_iff, eq_refl, one_of, if◌then◌else◌, Bool-cases, Option-cases, inl,
  inr,
}
use pocage.Dict
use pocage.Dict.{Dict, get-put, get-put_self}
use pocage.Runtime.State.{assigned, is_queued, RuntimeRun, RuntimeState}
use pocage.Runtime.Runs.{remove_once, claim_run, claim_from, claim_next_queued_run, update_session}

-- The run of an id if it is queued, for any daemon.
abbrev pub if_queued : Option RuntimeRun → Option RuntimeRun
if_queued none = none
if_queued (some run) = if is_queued run.status then some run else none

abbrev pub queued_run : Dict RuntimeRun → String → Option RuntimeRun
queued_run runs run_id = if_queued (Dict.get runs run_id)

abbrev for_daemon : String → Option RuntimeRun → Bool
for_daemon daemon_id none = false
for_daemon daemon_id (some run) = run.daemon_id == daemon_id

-- The first queued run of the daemon, in the order of the queue.
unfoldable pub first_claimable :
    Dict RuntimeRun → String → List String → Option (String × RuntimeRun)
first_claimable runs daemon_id [] = none
first_claimable runs daemon_id (run_id ∷ rest) = elim (queued_run runs run_id) [
  | none ↦ first_claimable runs daemon_id rest
  | some run ↦
      if run.daemon_id == daemon_id then some (run_id, run) else first_claimable runs daemon_id rest
]

-- What a claim leaves of the queue: up to the claimed run the ids without a queued run go, the ids
-- of other daemons stay, and behind it nothing changes.
unfoldable pub claimed_queue : Dict RuntimeRun → String → List String → List String
claimed_queue runs daemon_id [] = []
claimed_queue runs daemon_id (run_id ∷ rest) = elim (queued_run runs run_id) [
  | none ↦ claimed_queue runs daemon_id rest
  | some run ↦
      if run.daemon_id == daemon_id then rest else run_id ∷ claimed_queue runs daemon_id rest
]

abbrev pub IsNodup : List String → Type 0
IsNodup [] = Unit
IsNodup (i ∷ is) = (one_of i is ≡ false) × IsNodup is

remove_once-append :
    (before : List String) (run_id : String) (rest : List String)
    → one_of run_id before ≡ false
    → remove_once run_id (before ++ run_id ∷ rest) ≡ before ++ rest
unfolding remove_once
remove_once-append [] run_id rest h = rw (eq_refl run_id)
remove_once-append (i ∷ before) run_id rest h =
    ground (arith, remove_once-append before run_id rest, eq_iff i run_id, eq_iff run_id i)

abbrev pub claimed : Option (String × RuntimeRun) → String → Option RuntimeRun
claimed none now = none
claimed (some (run_id, run)) now = some (record run { status = assigned; updated_at = now })

abbrev pub claimed_runs : Option (String × RuntimeRun) → String → Dict RuntimeRun → Dict RuntimeRun
claimed_runs none now runs = runs
claimed_runs (some (run_id, run)) now runs =
    Dict.put runs run_id (record run { status = assigned; updated_at = now })

-- What the loop returns and leaves, from a queue of which `before` was passed over.
record Claims (runs : Dict RuntimeRun) (daemon_id now : String) (before ids : List String)
    (r : RuntimeState × Option RuntimeRun) : Type 0 where
  result : r.1 ≡ claimed (first_claimable runs daemon_id ids) now
  queue : r.0.queued_runs ≡ before ++ claimed_queue runs daemon_id ids
  table : r.0.runs ≡ claimed_runs (first_claimable runs daemon_id ids) now runs

one_of-append :
    (i : String) (xs ys : List String) → one_of i (xs ++ ys) ≡ one_of i xs || one_of i ys
one_of-append i [] ys = refl
one_of-append i (x ∷ xs) ys = ground (arith, one_of-append i xs ys)

-- No id of the rest was passed over.
abbrev Apart : List String → List String → Type 0
Apart before [] = Unit
Apart before (i ∷ ids) = (one_of i before ≡ false) × Apart before ids

Apart-snoc :
    (before : List String) (i : String) (ids : List String)
    → one_of i ids ≡ false
    → Apart before ids
    → Apart (before ++ i ∷ []) ids
Apart-snoc before i [] h d = tt
Apart-snoc before i (j ∷ ids) h d =
    ground (arith, one_of-append j before (i ∷ []), eq_iff i j, eq_iff j i, Apart-snoc before i ids)

Apart-nil : (ids : List String) → Apart [] ids
Apart-nil [] = tt
Apart-nil (i ∷ ids) = (refl, Apart-nil ids)

module _ (daemon_id now : String) where
  claim_stale :
      (s : RuntimeState) (before : List String) (run_id : String) (ids : List String)
      → queued_run s.runs run_id ≡ none
      → Claims s.runs daemon_id now before ids (
          claim_from ids
            (record s { queued_runs = remove_once run_id s.queued_runs })
            daemon_id
            now)
      → Claims s.runs daemon_id now before
          (run_id ∷ ids)
          (claim_from (run_id ∷ ids) s daemon_id now)
  unfolding claim_from first_claimable claimed_queue
  claim_stale s before run_id ids h c = record {
    result = ground arith;
    table = ground arith;
    queue = ground arith;
  }

  claim_other :
      (s : RuntimeState) (before : List String) (run_id : String) (ids : List String)
      (run : RuntimeRun)
      → queued_run s.runs run_id ≡ some run
      → (run.daemon_id == daemon_id) ≡ false
      → Claims s.runs daemon_id now (before ++ run_id ∷ []) ids (claim_from ids s daemon_id now)
      → Claims s.runs daemon_id now before
          (run_id ∷ ids)
          (claim_from (run_id ∷ ids) s daemon_id now)
  unfolding claim_from first_claimable claimed_queue
  claim_other s before run_id ids run h o c = record {
    result = ground arith;
    table = ground arith;
    queue = ground (arith, append_assoc before (run_id ∷ []) (claimed_queue s.runs daemon_id ids));
  }

  claim_hit :
      (s : RuntimeState) (before : List String) (run_id : String) (ids : List String)
      (run : RuntimeRun)
      → queued_run s.runs run_id ≡ some run
      → (run.daemon_id == daemon_id) ≡ true
      → s.queued_runs ≡ before ++ run_id ∷ ids
      → one_of run_id before ≡ false
      → Claims s.runs daemon_id now before
          (run_id ∷ ids)
          (claim_from (run_id ∷ ids) s daemon_id now)
  unfolding claim_from first_claimable claimed_queue claim_run update_session
  claim_hit s before run_id ids run h o q f = record {
    result = ground arith;
    table = ground arith;
    queue = ground (arith, remove_once-append before run_id ids f);
  }

  claim_from-Claims :
      (s : RuntimeState) (before ids : List String)
      → s.queued_runs ≡ before ++ ids
      → Apart before ids
      → IsNodup ids
      → Claims s.runs daemon_id now before ids (claim_from ids s daemon_id now)
  unfolding claim_from first_claimable claimed_queue
  claim_from-Claims s before [] h d n = record { result = refl; queue = h; table = refl }
  claim_from-Claims s before (run_id ∷ ids) h d n = elim (Option-cases (queued_run s.runs run_id)) [
    | inl e ↦ claim_stale s before run_id ids e (
        claim_from-Claims (record s { queued_runs = remove_once run_id s.queued_runs }) before ids
          (rw h (remove_once-append before run_id ids d.0)) d.1 n.1)
    | inr (run, e) ↦ elim (Bool-cases (run.daemon_id == daemon_id)) [
      | inl own ↦ claim_hit s before run_id ids run e own h d.0
      | inr other ↦ claim_other s before run_id ids run e other (
          claim_from-Claims s (before ++ run_id ∷ []) ids
            (h ∙ sym (append_assoc before (run_id ∷ []) ids)) (Apart-snoc before run_id ids n.0 d.1)
            n.1)
    ]
  ]

-- From a queue without repetitions, a claim returns the first queued run of the daemon in the order of the queue, now assigned, or
-- nothing if the daemon has none; only that run changes in the table, and of the queue go that run
-- and the ids before it that have no queued run.
pub claim_next_queued_run-first :
    (s : RuntimeState) (daemon_id now : String)
    → IsNodup s.queued_runs
    → let (s', claimed_run) = claim_next_queued_run s daemon_id now in
      (claimed_run ≡ claimed (first_claimable s.runs daemon_id s.queued_runs) now)
      × (s'.queued_runs ≡ claimed_queue s.runs daemon_id s.queued_runs)
      × (s'.runs ≡ claimed_runs (first_claimable s.runs daemon_id s.queued_runs) now s.runs)
unfolding claim_next_queued_run
claim_next_queued_run-first s daemon_id now n =
    let c = claim_from-Claims daemon_id now s [] s.queued_runs refl (Apart-nil s.queued_runs) n in
    (c.result, c.queue, c.table)
