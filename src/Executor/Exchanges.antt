-- ===== src/Executor/Exchanges.antt =====
-- backend/app/executor_manager.py: histories of requests to daemons, their answers and ends, and of
-- daemons that leave.
use pocage.Prelude.{
  ℕ, String, ◌≡◌, refl, ◌∙◌, Option, none, some, List, [], ◌∷◌, get_or, ◌==◌, if◌then◌else◌,
}
use pocage.Json.Defs.{Fields}
use pocage.Waiters.{failed, Key, Waiters, lookup, settled, no_waiters}
use pocage.Waiters.Laws.{IsValid, no_waiters-IsValid, lookup-settle_first, futures-settle_first}
use pocage.Waiters.Evolves.{Evolves}
use pocage.Executor.Answers.{
  SessionCreateResultPayload, SessionListResultPayload, SessionSyncResultPayload,
  ContextSearchResultPayload,
}
use pocage.Executor.Defs.{ExecutorManager, Stamp, fail_waiters, unregister}
use pocage.Executor.Requests.{Kind, request_begins, request_ends}
use pocage.Executor.Results.{on_search_result, on_create_result, on_list_result, on_sync_result}
use pocage.Executor.Later.{
  Later, Later-refl, Later-trans, same_waiters, request_begins-Later, request_ends-Later,
  fail_waiters-Later, unregister-SameTables, on_search_result-Later, on_create_result-Later,
  on_sync_result-Later, on_list_result-Later,
}
use pocage.Waiters.{settle_first}

pub data Exchange : Type 0 where
  asks : Kind → (daemon_id request_id : String) → Exchange
  ends : Kind → (daemon_id request_id : String) → Exchange
  answers_create : (daemon_id : String) → SessionCreateResultPayload → Exchange
  answers_list : (daemon_id : String) → SessionListResultPayload → Exchange
  answers_sync : (daemon_id : String) → Fields → Option SessionSyncResultPayload → Exchange
  answers_search : (daemon_id : String) → ContextSearchResultPayload → Exchange
  leaves : (daemon_id : String) → Stamp → Exchange

module _ (instant : String → ℕ) (hash_secret : String → String)
    (seen_at : Option String → String) where
  unfoldable pub exchange : ExecutorManager → Exchange → ExecutorManager
  exchange m (asks kind daemon_id request_id) =
      get_or (request_begins m kind daemon_id request_id) m
  exchange m (ends kind daemon_id request_id) = request_ends m kind daemon_id request_id
  exchange m (answers_create daemon_id event) =
      (on_create_result hash_secret seen_at m daemon_id event).0
  exchange m (answers_list daemon_id event) =
      (on_list_result hash_secret seen_at m daemon_id event).0
  exchange m (answers_sync daemon_id payload event) =
      (on_sync_result hash_secret seen_at m daemon_id payload event).0
  exchange m (answers_search daemon_id event) = (on_search_result m daemon_id event).0
  exchange m (leaves daemon_id stamp) = unregister instant m daemon_id stamp

  unfoldable pub exchanges : ExecutorManager → List Exchange → ExecutorManager
  exchanges m [] = m
  exchanges m (x ∷ xs) = exchanges (exchange m x) xs

  unregister-Later :
      (m : ExecutorManager) (d : String) (stamp : Stamp) → Later m (unregister instant m d stamp)
  unregister-Later m d stamp =
      let (p, q, r, s) = unregister-SameTables instant m d stamp in
      Later-trans m _ _ (fail_waiters-Later m d "daemon_disconnected") (same_waiters _ _ p q r s)

  exchange-Later : (m : ExecutorManager) (x : Exchange) → Later m (exchange m x)
  unfolding exchange
  exchange-Later m (asks kind d r) = request_begins-Later m kind d r
  exchange-Later m (ends kind d r) = request_ends-Later m kind d r
  exchange-Later m (answers_create d event) = on_create_result-Later hash_secret seen_at m d event
  exchange-Later m (answers_list d event) = on_list_result-Later hash_secret seen_at m d event
  exchange-Later m (answers_sync d payload event) =
      on_sync_result-Later hash_secret seen_at m d payload event
  exchange-Later m (answers_search d event) = on_search_result-Later hash_secret seen_at m d event
  exchange-Later m (leaves d stamp) = unregister-Later m d stamp

  exchanges-Later : (m : ExecutorManager) (xs : List Exchange) → Later m (exchanges m xs)
  unfolding exchanges
  exchanges-Later m [] = Later-refl m
  exchanges-Later m (x ∷ xs) =
      Later-trans m (exchange m x) _ (exchange-Later m x) (exchanges-Later (exchange m x) xs)

-- Two tables around the leaving of a daemon: its waiters are gone and have failed unless they were
-- done, and those of other daemons are as they were.
unfoldable pub FailsFor {ℓ} : {A : Type ℓ} → String → Waiters A → Waiters A → Type ℓ
FailsFor daemon_id w w' =
    (key : Key) (future : ℕ)
    → lookup w key ≡ some future
    → (lookup w' key ≡ (if key.0 == daemon_id then none else some future))
      × (w'.futures future ≡ (
          if key.0 == daemon_id
          then settled (failed "daemon_disconnected") (w.futures future)
          else w.futures future))

fails_for {ℓ} :
    {A : Type ℓ} (d : String) (w w' : Waiters A)
    → IsValid w
    → settle_first w d (failed "daemon_disconnected") ≡ w'
    → FailsFor d w w'
unfolding FailsFor
fails_for d w w' v e key future found = (
  rw⁻¹ e (lookup-settle_first w d (failed "daemon_disconnected") key ∙ rw found refl),
  rw⁻¹ e (futures-settle_first w d (failed "daemon_disconnected") key future v found),
)

-- A table that was empty at first.
later-IsValid {ℓ} : {A : Type ℓ} (w w' : Waiters A) → w ≡ no_waiters → Evolves w w' → IsValid w'
later-IsValid w w' h e = e.valid (rw h no_waiters-IsValid)

module _ (instant : String → ℕ) (hash_secret : String → String)
    (seen_at : Option String → String) where
  -- In a manager without requests at first, after any history of requests, answers and daemons that
  -- leave, take a request of any of the four kinds that is in its table. When a daemon leaves, the
  -- request leaves its table and fails, unless it is done, if it is one to that daemon, and is as
  -- it was if it is one to another daemon.
  pub unregister-fails :
      (m : ExecutorManager) (xs : List Exchange) (daemon_id : String) (stamp : Stamp)
      → m.context_search_waiters ≡ no_waiters
      → m.session_create_waiters ≡ no_waiters
      → m.session_list_waiters ≡ no_waiters
      → m.session_sync_waiters ≡ no_waiters
      → let before = exchanges instant hash_secret seen_at m xs in
        let after = unregister instant before daemon_id stamp in
        FailsFor daemon_id before.context_search_waiters after.context_search_waiters
        × FailsFor daemon_id before.session_create_waiters after.session_create_waiters
        × FailsFor daemon_id before.session_list_waiters after.session_list_waiters
        × FailsFor daemon_id before.session_sync_waiters after.session_sync_waiters
  unfolding fail_waiters
  unregister-fails m xs daemon_id stamp p q r s =
      let before = exchanges instant hash_secret seen_at m xs in
      let later = exchanges-Later instant hash_secret seen_at m xs in
      let (a, b, c, d) = unregister-SameTables instant before daemon_id stamp in
      (
        fails_for daemon_id _ _ (later-IsValid _ _ p later.search) a,
        fails_for daemon_id _ _ (later-IsValid _ _ q later.create) b,
        fails_for daemon_id _ _ (later-IsValid _ _ r later.list) c,
        fails_for daemon_id _ _ (later-IsValid _ _ s later.sync) d,
      )
