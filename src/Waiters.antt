-- ===== src/Waiters.antt =====
-- A dict of `asyncio` futures under pairs of texts, as both sides keep it for the answers that they
-- wait for: backend/app/executor_manager.py by daemon and request, connector/pocage/executor.py by run
-- and approval. A future is an object of its own, known by a number; the dict holds numbers.
pub mod Laws
pub mod Evolves
pub mod Lost
use pocage.Prelude.{
  ℕ, suc, String, Bool, true, false, ◌&&◌, ◌||◌, Option, none, some, List, [], ◌∷◌, ◌==◌, same,
  if◌then◌else◌,
}

pub data Future {ℓ} (A : Type ℓ) : Type ℓ where
  waiting : Future A
  done_with : A → Future A
  failed : (message : String) → Future A

abbrev pub Key : Type 0
Key = String × String

abbrev pub same_key : Key → Key → Bool
same_key k j = k.0 == j.0 && k.1 == j.1

abbrev pub mem_key : Key → List Key → Bool
mem_key k [] = false
mem_key k (j ∷ js) = same_key j k || mem_key k js

pub record Waiters {ℓ} (A : Type ℓ) : Type ℓ where
  pub entries : List (Key × ℕ)
  pub futures : ℕ → Future A
  pub next_future : ℕ

unfoldable pub find : List (Key × ℕ) → Key → Option ℕ
find [] k = none
find ((j, n) ∷ rest) k = if same_key j k then some n else find rest k

-- table[key] = future
unfoldable pub put : List (Key × ℕ) → Key → ℕ → List (Key × ℕ)
put [] k n = (k, n) ∷ []
put ((j, m) ∷ rest) k n = if same_key j k then (j, n) ∷ rest else (j, m) ∷ put rest k n

-- table.pop(key, None)
unfoldable pub pop : List (Key × ℕ) → Key → List (Key × ℕ)
pop [] k = []
pop ((j, n) ∷ rest) k = let others = pop rest k in if same_key j k then others else (j, n) ∷ others

-- the keys whose first part is a given text
unfoldable pub targets : List (Key × ℕ) → String → List Key
targets [] first = []
targets ((key, n) ∷ rest) first =
    let others = targets rest first in if key.0 == first then key ∷ others else others

-- set_result or set_exception on a future that is not done
abbrev pub settled {ℓ} : {A : Type ℓ} → Future A → Future A → Future A
settled outcome waiting = outcome
settled outcome (done_with a) = done_with a
settled outcome (failed message) = failed message

module _ {ℓ} {A : Type ℓ} where
  unfoldable pub no_waiters : Waiters A
  no_waiters = record { entries = []; futures = λ n. waiting; next_future = 0 }

  unfoldable pub lookup : Waiters A → Key → Option ℕ
  unfolding find
  lookup w key = find w.entries key

  -- future = loop.create_future(); table[key] = future
  unfoldable pub open_waiter : Waiters A → Key → Waiters A × ℕ
  unfolding put
  open_waiter w key = (
    record {
      entries = put w.entries key w.next_future;
      futures = λ n. if same n w.next_future then waiting else w.futures n;
      next_future = suc w.next_future;
    },
    w.next_future,
  )

  unfoldable pub pop_waiter : Waiters A → Key → Waiters A
  unfolding pop
  pop_waiter w key = record w { entries = pop w.entries key }

  unfoldable pub settle : Waiters A → ℕ → Future A → Waiters A
  settle w number outcome = record w {
    futures = λ n. if same n number then settled outcome (w.futures n) else w.futures n;
  }

  unfoldable pub settle_key : Waiters A → Key → Future A → Waiters A
  unfolding settle pop_waiter lookup
  settle_key w key outcome = elim (lookup w key) [
    | none ↦ pop_waiter w key
    | some number ↦ settle (pop_waiter w key) number outcome
  ]

  unfoldable pub settle_each : Waiters A → List Key → Future A → Waiters A
  unfolding settle_key
  settle_each w [] outcome = w
  settle_each w (key ∷ keys) outcome = settle_each (settle_key w key outcome) keys outcome

  -- the futures under those keys are settled and the keys removed
  unfoldable pub settle_first : Waiters A → String → Future A → Waiters A
  unfolding settle_each targets
  settle_first w first outcome = settle_each w (targets w.entries first) outcome
