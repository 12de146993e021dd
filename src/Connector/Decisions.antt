-- ===== src/Connector/Decisions.antt =====
-- connector/pocage/executor.py: what becomes of the permission requests of a run.
use pocage.Prelude.{
  ℕ, ◌<◌, String, ◌≡◌, refl, ap, ◌∙◌, true, none, some, List, [], ◌∷◌, if◌then◌else◌, one_of, arith,
  Bool-cases, inl, inr, ◌==◌, eq_iff, eq_refl,
}
use pocage.Text.{strip, is_nonempty}
use pocage.Dict
use pocage.Dict.{Dict}
use pocage.Json.Defs.{Value, Fields, str, to_fields}
use pocage.Json.Access.{get, member, truthy}
use pocage.Waiters.{waiting, done_with, Key, Waiters, lookup, open_waiter, settle, settled}
use pocage.Waiters.Laws.{IsValid, lookup-settle_first, futures-settle_first, lookup-open_waiter}
use pocage.Waiters.Evolves.{is_done, settle_first-Evolves, settle_first-IsValid, is_done-settled}
use pocage.Connector.Executor.{
  ActiveRun, Decision, selected, cancelled, PocageExecutor, cancel_permission_waiters,
  text_or_empty, message_decision, handle_permission_decision, permission_requested, cancel_each,
  backend_connection_closed,
}
use pocage.Connector.Steps.{
  new_executor, Step, steps, steps-Later, steps-IsValid, cancel_each-Later,
  handle_permission_decision-Later,
}

module _ (text_of : Value → String) where
  -- After any history, take a request that is in the table. `_cancel_permission_waiters` takes it
  -- out and cancels it, unless it is done, if it is of the run, and leaves it as it is if it is of
  -- another run.
  pub cancel_permission_waiters-settles :
      (ss : List Step) (run_id reason : String) (key : Key) (future : ℕ)
      → let waiters = (steps text_of new_executor ss).pending_permission_decisions in
        let waiters' =
          (cancel_permission_waiters
            (steps text_of new_executor ss)
            run_id
            reason).pending_permission_decisions in
        lookup waiters key ≡ some future
        → (lookup waiters' key ≡ (if key.0 == run_id then none else some future))
          × (waiters'.futures future ≡ (
              if key.0 == run_id
              then settled (done_with (cancelled (some reason))) (waiters.futures future)
              else waiters.futures future))
  unfolding cancel_permission_waiters
  cancel_permission_waiters-settles ss run_id reason key future found =
      let waiters = (steps text_of new_executor ss).pending_permission_decisions in
      (
        lookup-settle_first waiters run_id (done_with (cancelled (some reason))) key
            ∙ rw found refl,
        futures-settle_first waiters run_id (done_with (cancelled (some reason))) key future
            (steps-IsValid text_of ss) found,
      )

cancel_each-missing :
    (e : PocageExecutor) (run_ids : List String) (key : Key)
    → lookup e.pending_permission_decisions key ≡ none
    → lookup (cancel_each e run_ids).pending_permission_decisions key ≡ none
unfolding cancel_each cancel_permission_waiters
cancel_each-missing e [] key h = h
cancel_each-missing e (run_id ∷ run_ids) key h =
    cancel_each-missing (cancel_permission_waiters e run_id "backend_connection_closed") run_ids key
      (ground (
        arith,
        lookup-settle_first e.pending_permission_decisions run_id
            (done_with (cancelled (some "backend_connection_closed"))) key,
      ))

-- What is out of the table and done stays so.
cancel_each-stays :
    (e : PocageExecutor) (run_ids : List String) (key : Key) (future : ℕ)
    → future < e.pending_permission_decisions.next_future
    → lookup e.pending_permission_decisions key ≡ none
    → is_done (e.pending_permission_decisions.futures future) ≡ true
    → (lookup (cancel_each e run_ids).pending_permission_decisions key ≡ none)
      × (is_done ((cancel_each e run_ids).pending_permission_decisions.futures future) ≡ true)
cancel_each-stays e run_ids key future used missing done = (
  cancel_each-missing e run_ids key missing,
  ap is_done ((cancel_each-Later e run_ids).kept future used done) ∙ done,
)

cancel_each-settles :
    (e : PocageExecutor) (run_ids : List String) (key : Key) (future : ℕ)
    → IsValid e.pending_permission_decisions
    → lookup e.pending_permission_decisions key ≡ some future
    → one_of key.0 run_ids ≡ true
    → (lookup (cancel_each e run_ids).pending_permission_decisions key ≡ none)
      × (is_done ((cancel_each e run_ids).pending_permission_decisions.futures future) ≡ true)
unfolding cancel_each cancel_permission_waiters
cancel_each-settles e [] key future v found h = cc
cancel_each-settles e (run_id ∷ run_ids) key future v found h =
    let w = e.pending_permission_decisions in
    let reason = done_with (cancelled (some "backend_connection_closed")) in
    let e' = cancel_permission_waiters e run_id "backend_connection_closed" in
    let gone = lookup-settle_first w run_id reason key in
    let here = futures-settle_first w run_id reason key future v found in
    elim (Bool-cases (key.0 == run_id)) [
      | inl g ↦
          cancel_each-stays e' run_ids key future
            (omega (arith, v.used key future found, (settle_first-Evolves w run_id reason).later))
            (gone ∙ rw g refl)
            (ap is_done here ∙ rw g (is_done-settled reason (w.futures future) refl))
      | inr g ↦
          cancel_each-settles e' run_ids key future (settle_first-IsValid w run_id reason v)
            (gone ∙ rw (g, found) refl) (rw g at h)
    ]

one_of-keys :
    (d : Dict ActiveRun) (k : String) → Dict.has d k ≡ true → one_of k (Dict.keys d) ≡ true
unfolding Dict.get
one_of-keys [] k h = cc
one_of-keys ((j, run) ∷ d) k h = ground (arith, one_of-keys d k, eq_iff j k, eq_iff k j)

-- After any history, when the connection to the backend ends, each request of an active run that is
-- in the table leaves it and is done.
pub backend_connection_closed-settles :
    (text_of : Value → String) (ss : List Step) (key : Key) (future : ℕ)
    → let e = steps text_of new_executor ss in
      Dict.has e.active_runs key.0 ≡ true
      → lookup e.pending_permission_decisions key ≡ some future
      → (lookup (backend_connection_closed e).pending_permission_decisions key ≡ none)
        × (is_done ((backend_connection_closed e).pending_permission_decisions.futures future)
            ≡ true)
unfolding backend_connection_closed
backend_connection_closed-settles text_of ss key future active found =
    let e = steps text_of new_executor ss in
    cancel_each-settles e (Dict.keys e.active_runs) key future (steps-IsValid text_of ss) found
      (one_of-keys e.active_runs key.0 active)

-- the message of a decision for an option
unfoldable pub decision_message : (run_id approval_id option_id : String) → Fields
decision_message run_id approval_id option_id = to_fields (
    ("type", str "run.permission.decision")
    ∷ ("run_id", str run_id)
    ∷ ("approval_id", str approval_id)
    ∷ ("decision", str "selected")
    ∷ ("option_id", str option_id)
    ∷ [])

text_or_empty_lem :
    (text_of : Value → String) (s : String)
    → (text_of (str s) ≡ s)
    → text_or_empty text_of (str s) ≡ s
unfolding text_or_empty truthy
text_or_empty_lem text_of String.[] h = refl
text_or_empty_lem text_of (String.◌∷◌ c s) h = h

pub requested-opens :
    (text_of : Value → String) (e : PocageExecutor) (run_id session_id approval_id : String)
    (request : Fields)
    → text_of (str approval_id) ≡ approval_id
    → get request "approval_id" ≡ str approval_id
    → strip approval_id ≡ approval_id
    → is_nonempty approval_id ≡ true
    → (permission_requested text_of true e run_id session_id request).0 ≡ record e {
      pending_permission_decisions =
          (open_waiter e.pending_permission_decisions (run_id, approval_id)).0;
    }
unfolding permission_requested
requested-opens text_of e run_id session_id approval_id request text found trimmed named =
    rw (permission_requested, found, text_or_empty_lem text_of approval_id text, trimmed, named)
      refl

settle-waiting :
    (w : Waiters Decision) (future : ℕ) (decision : Decision)
    → w.futures future ≡ waiting
    → (settle w future (done_with decision)).futures future ≡ done_with decision
unfolding settle
settle-waiting w future decision h = ground arith

decided-settles :
    (text_of : Value → String) (e : PocageExecutor) (message : Fields) (run_id approval_id : String)
    (future : ℕ)
    → text_or_empty text_of (get message "run_id") ≡ run_id
    → text_or_empty text_of (get message "approval_id") ≡ approval_id
    → is_nonempty run_id ≡ true
    → is_nonempty approval_id ≡ true
    → lookup e.pending_permission_decisions (run_id, approval_id) ≡ some future
    → e.pending_permission_decisions.futures future ≡ waiting
    → (handle_permission_decision text_of e message).pending_permission_decisions.futures future
      ≡ done_with (message_decision message)
unfolding handle_permission_decision
decided-settles text_of e message run_id approval_id future run approval named named' found open_ =
    rw (handle_permission_decision, run, approval, named, named', found)
      (settle-waiting e.pending_permission_decisions future (message_decision message) open_)

-- A decision for a request that has just been opened.
opened-decides :
    (text_of : Value → String) (e : PocageExecutor) (after : List Step)
    (run_id approval_id option_id : String)
    → ((s : String) → text_of (str s) ≡ s)
    → is_nonempty approval_id ≡ true
    → is_nonempty run_id ≡ true
    → let w = e.pending_permission_decisions in
      let e' = record e {
        pending_permission_decisions = (open_waiter w (run_id, approval_id)).0;
      } in
      (steps text_of
          (handle_permission_decision text_of e' (decision_message run_id approval_id option_id))
          after).pending_permission_decisions.futures
        w.next_future
      ≡ done_with (selected option_id)
unfolding decision_message get member message_decision open_waiter
opened-decides text_of e after run_id approval_id option_id text named named' =
    let w = e.pending_permission_decisions in
    let e' : PocageExecutor = record e {
      pending_permission_decisions = (open_waiter w (run_id, approval_id)).0;
    } in
    let message = decision_message run_id approval_id option_id in
    let decided =
      decided-settles text_of e' message run_id approval_id w.next_future
        (text_or_empty_lem text_of run_id (text run_id))
        (text_or_empty_lem text_of approval_id (text approval_id)) named' named
        (lookup-open_waiter w (run_id, approval_id) (run_id, approval_id)
          ∙ rw (eq_refl run_id, eq_refl approval_id) refl)
        (ground arith) in
    (steps-Later text_of (handle_permission_decision text_of e' message) after).kept w.next_future
      (omega (arith, (handle_permission_decision-Later text_of e' message).later))
      (ap is_done decided)
    ∙ decided

-- Where `text_of` of a text is the text: after any history let the agent ask for a permission under
-- an approval that is trimmed and not empty, in a run whose id is not empty, and the request be
-- sent. A decision for an option then answers that request with the option, whatever follows.
pub decision-answers :
    (text_of : Value → String) (before after : List Step)
    (run_id session_id approval_id option_id : String) (request : Fields)
    → ((s : String) → text_of (str s) ≡ s)
    → get request "approval_id" ≡ str approval_id
    → strip approval_id ≡ approval_id
    → is_nonempty approval_id ≡ true
    → is_nonempty run_id ≡ true
    → let e = steps text_of new_executor before in
      let e' = (permission_requested text_of true e run_id session_id request).0 in
      let e'' =
        handle_permission_decision text_of e' (decision_message run_id approval_id option_id) in
      (steps text_of e'' after).pending_permission_decisions.futures
        e.pending_permission_decisions.next_future
      ≡ done_with (selected option_id)
decision-answers text_of before after run_id session_id approval_id option_id request text found
      trimmed named named' =
    let e = steps text_of new_executor before in
    rw
      (requested-opens text_of e run_id session_id approval_id request (text approval_id) found
        trimmed named)
      (opened-decides text_of e after run_id approval_id option_id text named named')
