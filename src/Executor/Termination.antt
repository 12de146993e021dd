-- ===== src/Executor/Termination.antt =====
-- backend/app/executor_manager.py: the fuel of `dispatch_pending` and the table of daemons.
use pocage.Prelude.{
  ℕ, suc, zero, ◌≤◌, ◌<◌, String, ◌≡◌, refl, ap, Bool, true, false, Option, none, some, List, [],
  ◌∷◌, arith, ◌⊎◌, inl, inr, Bool-cases, Option-cases, length, filter, All,
}
use pocage.Dict
use pocage.Dict.{Dict, Distinct-entries}
use pocage.Transcript.Segments.{is_empty_list}
use pocage.Runtime.State.{RuntimeRun}
use pocage.Runtime.Runs.{claim_next_queued_run}
use pocage.Executor.Defs.{
  ExecutorSession, ExecutorManager, Stamp, store_and_publish, is_idle, set_busy,
}
use pocage.Executor.Dispatch.{
  list_available_daemons, dispatched, dispatch_failed, deliver, dispatch_to, dispatch_round,
  dispatch_loop, dispatch_pending,
}

abbrev idle_count : Dict ExecutorSession → ℕ
idle_count d = length (filter is_idle (Dict.values d))

-- Each daemon is connected once, and its session is filed under its id.
pub record IsFiled (d : Dict ExecutorSession) : Type 0 where
  pub distinct : Dict.Distinct d
  pub named : All (λ e. e.1.daemon_id ≡ e.0) d

abbrev idle_at : Dict ExecutorSession → String → Bool
idle_at d id = elim (Dict.get d id) [ none ↦ false | some session ↦ is_idle session ]

set_busy-le :
    (d : Dict ExecutorSession) (id run_id : String)
    → idle_count (set_busy d id (some run_id)) ≤ idle_count d
unfolding set_busy
set_busy-le [] id run_id = omega arith
set_busy-le ((j, session) ∷ d) id run_id = ground (arith, set_busy-le d id run_id)

set_busy-lt :
    (d : Dict ExecutorSession) (id run_id : String)
    → idle_at d id ≡ true
    → idle_count (set_busy d id (some run_id)) < idle_count d
unfolding set_busy Dict.get
set_busy-lt [] id run_id h = cc
set_busy-lt ((j, session) ∷ d) id run_id h =
    ground (arith, set_busy-lt d id run_id, set_busy-le d id run_id)

get-set_busy :
    (d : Dict ExecutorSession) (id k : String) (busy : Option String)
    → Dict.get d k ≡ none
    → Dict.get (set_busy d id busy) k ≡ none
unfolding set_busy Dict.get
get-set_busy [] id k busy h = refl
get-set_busy ((j, session) ∷ d) id k busy h = ground (arith, get-set_busy d id k busy)

set_busy-Distinct :
    (d : Dict ExecutorSession) (id : String) (busy : Option String)
    → Dict.Distinct d
    → Dict.Distinct (set_busy d id busy)
unfolding set_busy
set_busy-Distinct [] id busy f = tt
set_busy-Distinct ((j, session) ∷ d) id busy f =
    ground (arith, get-set_busy d id j busy f.0, set_busy-Distinct d id busy f.1)

set_busy-named :
    (d : Dict ExecutorSession) (id : String) (busy : Option String)
    → All (λ e. e.1.daemon_id ≡ e.0) d
    → All (λ e. e.1.daemon_id ≡ e.0) (set_busy d id busy)
unfolding set_busy
set_busy-named [] id busy f = tt
set_busy-named ((j, session) ∷ d) id busy f = ground (arith, set_busy-named d id busy f.1)

set_busy-IsFiled :
    (d : Dict ExecutorSession) (id : String) (busy : Option String)
    → IsFiled d
    → IsFiled (set_busy d id busy)
set_busy-IsFiled d id busy f = record {
  distinct = set_busy-Distinct d id busy f.distinct;
  named = set_busy-named d id busy f.named;
}

abbrev AreIdle : Dict ExecutorSession → List ExecutorSession → Type 0
AreIdle d = All (λ session. idle_at d session.daemon_id ≡ true)

idle_entries :
    (all d : Dict ExecutorSession)
    → All (λ e. e.1.daemon_id ≡ e.0) d
    → All (λ e. Dict.get all e.0 ≡ some e.1) d
    → AreIdle all (filter is_idle (Dict.values d))
idle_entries all [] n g = tt
idle_entries all ((j, session) ∷ d) n g = elim (Bool-cases (is_idle session)) [
  | inl h ↦ rw h (rw (n.0, idle_at, g.0) h, idle_entries all d n.1 g.1)
  | inr h ↦ rw h (idle_entries all d n.1 g.1)
]

module _ (instant : String → ℕ) (sends : (daemon_id run_id : String) → Bool)
    (stamp : String → Stamp) (now : String) where
  -- What a turn does to the table of daemons.
  abbrev Turn : Dict ExecutorSession → String → ExecutorManager × Bool → Type 0
  Turn d id r =
      ((r.1 ≡ false) × (r.0.daemons ≡ d))
      ⊎ ((run_id : String) × (r.1 ≡ true) × (r.0.daemons ≡ set_busy d id (some run_id)))

  deliver-Turn :
      (m : ExecutorManager) (id : String) (run : RuntimeRun)
      → Turn m.daemons id (deliver instant sends stamp m id run)
  unfolding deliver dispatched dispatch_failed store_and_publish
  deliver-Turn m id run = elim (Bool-cases (sends id run.run_id)) [
    | inl h ↦ inr (run.run_id, rw h refl, rw h refl)
    | inr h ↦ inl (rw h refl, rw h refl)
  ]

  dispatch_to-Turn :
      (m : ExecutorManager) (id : String)
      → Turn m.daemons id (dispatch_to instant sends stamp m id now)
  unfolding dispatch_to
  dispatch_to-Turn m id = elim (Option-cases (claim_next_queued_run m.runtime id now).1) [
    | inl e ↦ rw (e, dispatch_to) (inl (refl, refl))
    | inr (run, e) ↦
        rw (e, dispatch_to)
          (deliver-Turn (record m { runtime = (claim_next_queued_run m.runtime id now).0 }) id run)
  ]

  -- What a turn or a round keeps of the table of daemons.
  record Keeps (d d' : Dict ExecutorSession) : Type 0 where
    filed : IsFiled d'
    fewer : idle_count d' ≤ idle_count d

  Turn-Keeps :
      (d : Dict ExecutorSession) (id : String) (r : ExecutorManager × Bool)
      → IsFiled d
      → Turn d id r
      → Keeps d r.0.daemons
  Turn-Keeps d id r f (inl (p, e)) = rw e (record { filed = f; fewer = omega arith })
  Turn-Keeps d id r f (inr (run_id, p, e)) =
      rw e
        (record { filed = set_busy-IsFiled d id (some run_id) f; fewer = set_busy-le d id run_id })

  dispatch_round-Keeps :
      (m : ExecutorManager) (sessions : List ExecutorSession)
      → IsFiled m.daemons
      → Keeps m.daemons (dispatch_round instant sends stamp m sessions now).0.daemons
  unfolding dispatch_round
  dispatch_round-Keeps m [] f = record { filed = f; fewer = omega arith }
  dispatch_round-Keeps m (session ∷ sessions) f =
      let k =
        Turn-Keeps m.daemons session.daemon_id
          (dispatch_to instant sends stamp m session.daemon_id now) f
          (dispatch_to-Turn m session.daemon_id) in
      let r =
        dispatch_round-Keeps (dispatch_to instant sends stamp m session.daemon_id now).0 sessions
          k.filed in
      record { filed = r.filed; fewer = omega (arith, k.fewer, r.fewer) }

  -- A round with progress makes a daemon busy.
  dispatch_round-progress :
      (m : ExecutorManager) (sessions : List ExecutorSession)
      → IsFiled m.daemons
      → AreIdle m.daemons sessions
      → (dispatch_round instant sends stamp m sessions now).1 ≡ true
      → idle_count (dispatch_round instant sends stamp m sessions now).0.daemons
        < idle_count m.daemons
  unfolding dispatch_round
  dispatch_round-progress m [] f i p = cc
  dispatch_round-progress m (session ∷ sessions) f i p =
      let t = dispatch_to-Turn m session.daemon_id in
      let m' = (dispatch_to instant sends stamp m session.daemon_id now).0 in
      let k =
        Turn-Keeps m.daemons session.daemon_id
          (dispatch_to instant sends stamp m session.daemon_id now) f t in
      elim t [
        | inl (np, e) ↦ omega (
          arith,
          dispatch_round-progress m' sessions k.filed (rw e (i.1)) (rw np at p),
          ap idle_count e,
        )
        | inr (run_id, moved, e) ↦ omega (
          arith,
          (dispatch_round-Keeps m' sessions k.filed).fewer,
          ap idle_count e,
          set_busy-lt m.daemons session.daemon_id run_id i.0,
        )
      ]

  dispatch_loop-ends :
      (fuel : ℕ) (m : ExecutorManager)
      → IsFiled m.daemons
      → idle_count m.daemons < fuel
      → (m' : ExecutorManager) × (dispatch_loop instant sends stamp fuel m now ≡ some m')
        × IsFiled m'.daemons
  unfolding dispatch_loop list_available_daemons
  dispatch_loop-ends zero m f h = absurd (omega arith)
  dispatch_loop-ends (suc fuel) m f h =
      elim (Bool-cases (is_empty_list (list_available_daemons m))) [
        | inl e ↦ (m, rw e refl, f)
        | inr e ↦
            elim (Bool-cases
              (dispatch_round instant sends stamp m (list_available_daemons m) now).1) [
                | inl p ↦
                    let k = dispatch_round-Keeps m (list_available_daemons m) f in
                    let lt =
                      dispatch_round-progress m (list_available_daemons m) f
                        (idle_entries m.daemons m.daemons f.named
                          (Distinct-entries m.daemons f.distinct))
                        p in
                    let (m', r, g) =
                      dispatch_loop-ends fuel
                        (dispatch_round instant sends stamp m (list_available_daemons m) now).0
                        k.filed (omega (arith, lt, h)) in
                    (m', rw (e, p) r, g)
                | inr p ↦ (
                  (dispatch_round instant sends stamp m (list_available_daemons m) now).0,
                  rw (e, p) refl,
                  (dispatch_round-Keeps m (list_available_daemons m) f).filed,
                )
              ]
      ]

  -- Where each daemon is filed once under its own id, `dispatch_pending` returns, since
  -- its fuel is enough, and leaves each daemon so.
  pub dispatch_pending-ends :
      (m : ExecutorManager)
      → IsFiled m.daemons
      → (m' : ExecutorManager) × (dispatch_pending instant sends stamp m now ≡ some m')
        × IsFiled m'.daemons
  unfolding dispatch_pending list_available_daemons
  dispatch_pending-ends m f = dispatch_loop-ends _ m f (omega arith)
