-- ===== src/Waiters/Lost.antt =====
-- A future that has left the table before it was done.
use pocage.Prelude.{ℕ, ◌<◌, String, ◌≡◌, ◌≢◌, ap, ◌∙◌, some, same, arith, Bool-cases, inl, inr}
use pocage.Waiters.{
  Future, waiting, Key, Waiters, lookup, open_waiter, pop_waiter, settle, targets, settle_first,
}
use pocage.Waiters.Laws.{
  IsValid, lookup-open_waiter, lookup-pop_waiter, lookup-settle_each, futures-settle_each_outside,
}
use pocage.Waiters.Evolves.{settle_first-Evolves}

-- It waits, and no key holds it.
pub record IsLost {ℓ} {A : Type ℓ} (w : Waiters A) (n : ℕ) : Type ℓ where
  pub outside : (k : Key) → lookup w k ≢ some n
  pub waits : w.futures n ≡ waiting
  pub used : n < w.next_future

module _ {ℓ} {A : Type ℓ} where
  pub open_waiter-IsLost :
      (w : Waiters A) (key : Key) (n : ℕ) → IsLost w n → IsLost (open_waiter w key).0 n
  unfolding open_waiter
  open_waiter-IsLost w key n l = record {
    outside = λ k h. let used = l.used in l.outside k (ground (arith, lookup-open_waiter w key k));
    waits = let used = l.used in ground (arith, l.waits);
    used = omega (arith, l.used);
  }

  pub pop_waiter-IsLost :
      (w : Waiters A) (key : Key) (n : ℕ) → IsLost w n → IsLost (pop_waiter w key) n
  unfolding pop_waiter
  pop_waiter-IsLost w key n l = record {
    outside = λ k h. l.outside k (ground (arith, lookup-pop_waiter w key k));
    waits = l.waits;
    used = l.used;
  }

  pub settle-IsLost :
      (w : Waiters A) (key : Key) (m : ℕ) (outcome : Future A) (n : ℕ)
      → lookup w key ≡ some m
      → IsLost w n
      → IsLost (settle w m outcome) n
  unfolding settle lookup
  settle-IsLost w key m outcome n found l = record {
    outside = l.outside;
    waits = elim (Bool-cases (same n m)) [
      | inl e ↦ absurd (l.outside key (found ∙ ap some (ground arith)))
      | inr e ↦ rw e l.waits
    ];
    used = l.used;
  }

  pub settle_first-IsLost :
      (w : Waiters A) (first : String) (outcome : Future A) (n : ℕ)
      → IsLost w n
      → IsLost (settle_first w first outcome) n
  unfolding settle_first
  settle_first-IsLost w first outcome n l = record {
    outside = λ k h.
        l.outside k (ground (arith, lookup-settle_each w (targets w.entries first) k outcome));
    waits = futures-settle_each_outside w (targets w.entries first) outcome n l.outside ∙ l.waits;
    used = omega (arith, l.used, (settle_first-Evolves w first outcome).later);
  }

  -- A key that is opened again.
  pub open_waiter-loses :
      (w : Waiters A) (key : Key)
      → IsValid w
      → IsLost (open_waiter (open_waiter w key).0 key).0 w.next_future
  unfolding open_waiter
  open_waiter-loses w key v = record {
    outside = λ k h.
        let old = v.used k w.next_future in
        ground (arith, lookup-open_waiter (open_waiter w key).0 key k, lookup-open_waiter w key k);
    waits = ground arith;
    used = omega arith;
  }
