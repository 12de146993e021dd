-- ===== src/Events/Drain.antt =====
-- backend/app/events.py: `_drop_first_matching` empties the queue and fills it again; on a queue
-- within its bound that takes out the first match and nothing else.
use mathlib.Core.List.{Sublistᴰ}
use mathlib.Core.List
use pocage.Prelude.{
  ℕ, ◌+◌, ◌≤◌, ◌≡◌, refl, sym, Bool, true, false, [], ◌∷◌, ◌++◌, append-nil, append_assoc, arith,
  length, length-append, filter, any, if◌then◌else◌,
}
use pocage.Events.Queue.{StreamEvent, Queue, put_nowait, drain, refill, drop_first_matching}

choose_sublist :
    (e : StreamEvent) (q rest : Queue) (b : Bool)
    → Sublistᴰ rest q
    → Sublistᴰ (if b then q else e ∷ rest) (e ∷ q)
choose_sublist e q rest true s = Sublistᴰ.cons (List.Sublistᴰ.refl q)
choose_sublist e q rest false s = Sublistᴰ.cons-cons refl s

module _ (p : StreamEvent → Bool) where
  pub remove_first : Queue → Queue
  remove_first [] = []
  remove_first (e ∷ q) = let rest = remove_first q in if p e then q else e ∷ rest

  drain_after : (q : Queue) → drain p true q ≡ (q, true)
  unfolding drain
  drain_after [] = refl
  drain_after (e ∷ q) = ground (arith, drain_after q)

  drain_first : (q : Queue) → drain p false q ≡ (remove_first q, any p q)
  unfolding drain remove_first
  drain_first [] = refl
  drain_first (e ∷ q) = ground (arith, drain_after q, drain_first q)

  pub length-remove_first :
      (q : Queue) → length (remove_first q) + (if any p q then 1 else 0) ≡ length q
  unfolding remove_first
  length-remove_first [] = omega arith
  length-remove_first (e ∷ q) = ground (arith, length-remove_first q)

  pub remove_first-none : (q : Queue) → any p q ≡ false → remove_first q ≡ q
  unfolding remove_first
  remove_first-none [] h = refl
  remove_first-none (e ∷ q) h = ground (arith, remove_first-none q)

  pub remove_first-sublist : (q : Queue) → Sublistᴰ (remove_first q) q
  unfolding remove_first
  remove_first-sublist [] = Sublistᴰ.slnil
  remove_first-sublist (e ∷ q) = choose_sublist e q (remove_first q) (p e) (remove_first-sublist q)

  -- Removing what a second test rejects leaves the events that pass it.
  pub filter-remove_first :
      (r : StreamEvent → Bool) (q : Queue)
      → ((e : StreamEvent) → p e ≡ true → r e ≡ false)
      → filter r (remove_first q) ≡ filter r q
  unfolding remove_first
  filter-remove_first r [] h = refl
  filter-remove_first r (e ∷ q) h = ground (arith, h e, filter-remove_first r q h)

  -- One event fewer passes the test itself.
  pub length-filter-remove_first :
      (q : Queue)
      → length (filter p (remove_first q)) + (if any p q then 1 else 0) ≡ length (filter p q)
  unfolding remove_first
  length-filter-remove_first [] = omega arith
  length-filter-remove_first (e ∷ q) = ground (arith, length-filter-remove_first q)

pub refill_lem :
    (maxsize : ℕ) (q kept : Queue)
    → length q + length kept ≤ maxsize
    → refill maxsize q kept ≡ q ++ kept
unfolding refill put_nowait
refill_lem maxsize q [] h = sym (append-nil q)
refill_lem maxsize q (e ∷ kept) h = ground (
  arith,
  length-append q (e ∷ []),
  refill_lem maxsize (q ++ e ∷ []) kept,
  append_assoc q (e ∷ []) kept,
)

pub drop_first_matching_lem :
    (maxsize : ℕ) (p : StreamEvent → Bool) (q : Queue)
    → length q ≤ maxsize
    → drop_first_matching maxsize p q ≡ (remove_first p q, any p q)
unfolding drop_first_matching
drop_first_matching_lem maxsize p q h =
    ground
      (arith, drain_first p q, length-remove_first p q, refill_lem maxsize [] (remove_first p q))
