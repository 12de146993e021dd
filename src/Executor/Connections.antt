-- ===== src/Executor/Connections.antt =====
-- backend/app/executor_manager.py: histories of `register` and `unregister`.
use pocage.Prelude.{
  ℕ, String, ◌≡◌, refl, Option, none, some, List, [], ◌∷◌, arith, eq_iff, ap, ◌∙◌, not, is_some,
  ◌==◌, if◌then◌else◌, All, Bool-cases, Option-cases, inl, inr, get_or,
}
use pocage.Dict
use pocage.Dict.{Dict, get-put, get-pop, put-Distinct, pop-Distinct}
use pocage.Executor.Defs.{
  ExecutorSession, ExecutorManager, Stamp, store_and_publish, clear_run_stream_tracking, register,
  disconnect_run, fail_waiters, unregister,
}
use pocage.Executor.Termination.{IsFiled}

-- A refused `register` raises and leaves the state as it is.
pub data Connection : Type 0 where
  connects : ExecutorSession → Connection
  disconnects : String → Stamp → Connection

AreNamed : Dict ExecutorSession → Type 0
AreNamed = All (λ e. e.1.daemon_id ≡ e.0)

put-AreNamed :
    (d : Dict ExecutorSession) (session : ExecutorSession)
    → AreNamed d
    → AreNamed (Dict.put d session.daemon_id session)
unfolding AreNamed Dict.put
put-AreNamed [] session a = (refl, tt)
put-AreNamed ((j, s) ∷ d) session a =
    ground (arith, eq_iff j session.daemon_id, put-AreNamed d session a.1)

pop-AreNamed : (d : Dict ExecutorSession) (id : String) → AreNamed d → AreNamed (Dict.pop d id)
unfolding AreNamed Dict.pop
pop-AreNamed [] id a = tt
pop-AreNamed ((j, s) ∷ d) id a = ground (arith, pop-AreNamed d id a.1)

register-IsFiled :
    (m : ExecutorManager) (session : ExecutorSession)
    → IsFiled m.daemons
    → IsFiled (get_or (register m session) m).daemons
unfolding register AreNamed
register-IsFiled m session f = elim (Bool-cases (Dict.has m.daemons session.daemon_id)) [
  | inl h ↦ rw h f
  | inr h ↦ rw h (record {
    distinct = put-Distinct m.daemons session.daemon_id session f.distinct;
    named = put-AreNamed m.daemons session f.named;
  })
]

-- The session under an id: of those that connect while there is none, until the id is free again.
unfoldable pub first_connected :
    (id : String) → (current : Option ExecutorSession) → List Connection → Option ExecutorSession
first_connected id current [] = current
first_connected id current (connects session ∷ rest) =
    first_connected id (if session.daemon_id == id then some (get_or current session) else current)
      rest
first_connected id current (disconnects daemon_id stamp ∷ rest) =
    first_connected id (if daemon_id == id then none else current) rest

get-register :
    (m : ExecutorManager) (session : ExecutorSession) (id : String)
    → Dict.get (get_or (register m session) m).daemons id ≡ (
        if session.daemon_id == id
        then some (get_or (Dict.get m.daemons id) session)
        else Dict.get m.daemons id)
unfolding register
get-register m session id =
    ground (arith, get-put m.daemons session.daemon_id id session, eq_iff session.daemon_id id)

module _ (instant : String → ℕ) where
  unfoldable pub connections : ExecutorManager → List Connection → ExecutorManager
  connections m [] = m
  connections m (connects session ∷ rest) = connections (get_or (register m session) m) rest
  connections m (disconnects daemon_id stamp ∷ rest) =
      connections (unregister instant m daemon_id stamp) rest

  disconnect_run-daemons :
      (m : ExecutorManager) (busy : Option String) (stamp : Stamp)
      → (disconnect_run instant m busy stamp).daemons ≡ m.daemons
  unfolding disconnect_run store_and_publish clear_run_stream_tracking
  disconnect_run-daemons m none stamp = refl
  disconnect_run-daemons m (some run_id) stamp = refl

  unregister-IsFiled :
      (m : ExecutorManager) (daemon_id : String) (stamp : Stamp)
      → IsFiled m.daemons
      → IsFiled (unregister instant m daemon_id stamp).daemons
  unfolding unregister fail_waiters AreNamed
  unregister-IsFiled m daemon_id stamp f =
      let g : IsFiled (Dict.pop m.daemons daemon_id) = record {
        distinct = pop-Distinct m.daemons daemon_id f.distinct;
        named = pop-AreNamed m.daemons daemon_id f.named;
      } in
      elim (Option-cases (Dict.get m.daemons daemon_id)) [
        | inl e ↦ rw (e, unregister) g
        | inr (session, e) ↦
            rw
              (
                e,
                unregister,
                disconnect_run-daemons
                    (fail_waiters (record m { daemons = Dict.pop m.daemons daemon_id }) daemon_id
                      "daemon_disconnected")
                    session.busy_run_id stamp,
              )
              g
      ]

  get-unregister :
      (m : ExecutorManager) (daemon_id : String) (stamp : Stamp) (id : String)
      → Dict.get (unregister instant m daemon_id stamp).daemons id
        ≡ (if daemon_id == id then none else Dict.get m.daemons id)
  unfolding unregister fail_waiters
  get-unregister m daemon_id stamp id =
      let left =
        fail_waiters (record m { daemons = Dict.pop m.daemons daemon_id }) daemon_id
          "daemon_disconnected" in
      let gone = get-pop m.daemons daemon_id id in
      elim (Option-cases (Dict.get m.daemons daemon_id)) [
        | inl e ↦ rw (unregister, e) gone
        | inr (session, e) ↦
            rw (unregister, e, disconnect_run-daemons left session.busy_run_id stamp) gone
      ]

  connections-IsFiled :
      (m : ExecutorManager) (cs : List Connection)
      → IsFiled m.daemons
      → IsFiled (connections m cs).daemons
  unfolding connections
  connections-IsFiled m [] f = f
  connections-IsFiled m (connects session ∷ rest) f =
      connections-IsFiled (get_or (register m session) m) rest (register-IsFiled m session f)
  connections-IsFiled m (disconnects daemon_id stamp ∷ rest) f =
      connections-IsFiled (unregister instant m daemon_id stamp) rest
        (unregister-IsFiled m daemon_id stamp f)

  connections-first :
      (m : ExecutorManager) (cs : List Connection) (id : String)
      → Dict.get (connections m cs).daemons id ≡ first_connected id (Dict.get m.daemons id) cs
  unfolding connections first_connected
  connections-first m [] id = refl
  connections-first m (connects session ∷ rest) id =
      connections-first (get_or (register m session) m) rest id
      ∙ ap (λ o. first_connected id o rest) (get-register m session id)
  connections-first m (disconnects daemon_id stamp ∷ rest) id =
      connections-first (unregister instant m daemon_id stamp) rest id
      ∙ ap (λ o. first_connected id o rest) (get-unregister m daemon_id stamp id)

  -- Where each daemon is filed once under its own id, it is so after any daemons connect, are
  -- refused and disconnect. Under an id is then the first session that connected under it since it
  -- was last free, if any, and a further session is refused exactly if there is one under its id.
  pub get-connections :
      (m : ExecutorManager) (cs : List Connection)
      → IsFiled m.daemons
      → let after = connections m cs in
        IsFiled after.daemons
        × ((id : String)
            → Dict.get after.daemons id ≡ first_connected id (Dict.get m.daemons id) cs)
        × ((session : ExecutorSession)
            → let id = session.daemon_id in
              is_some (register after session)
              ≡ not (is_some (first_connected id (Dict.get m.daemons id) cs)))
  unfolding register
  get-connections m cs f = (
    connections-IsFiled m cs f,
    connections-first m cs,
    λ session. ground (arith, connections-first m cs session.daemon_id),
  )
