-- ===== src/Waiters/Evolves.antt =====
-- What no operation on waiters undoes.
use pocage.Prelude.{
  ℕ, ◌<◌, ◌≤◌, String, ◌≡◌, refl, ◌∙◌, Bool, true, false, List, [], ◌∷◌, arith, Option-cases, inl,
  inr,
}
use pocage.Waiters.{
  Future, waiting, done_with, failed, Key, Waiters, settled, lookup, open_waiter, pop_waiter,
  settle, settle_key, settle_each, targets, settle_first,
}
use pocage.Waiters.Laws.{IsValid, open_waiter-IsValid, pop_waiter-IsValid}

abbrev pub is_done {ℓ} : {A : Type ℓ} → Future A → Bool
is_done waiting = false
is_done (done_with a) = true
is_done (failed message) = true

-- Later waiters: a future that is done is as it was, and valid waiters are valid.
pub record Evolves {ℓ} {A : Type ℓ} (w w' : Waiters A) : Type ℓ where
  pub valid : IsValid w → IsValid w'
  pub kept : (n : ℕ) → n < w.next_future → is_done (w.futures n) ≡ true → w'.futures n ≡ w.futures n
  pub later : w.next_future ≤ w'.next_future

module _ {ℓ} {A : Type ℓ} where
  pub Evolves-refl : (w : Waiters A) → Evolves w w
  Evolves-refl w = record { valid = λ v. v; kept = λ n h d. refl; later = omega arith }

  pub Evolves-trans : {u v w : Waiters A} → Evolves u v → Evolves v w → Evolves u w
  Evolves-trans {u} {v} {w} e f = record {
    valid = λ h. f.valid (e.valid h);
    kept = λ n h d. f.kept n (omega (arith, e.later)) (rw (e.kept n h d) d) ∙ e.kept n h d;
    later = omega (arith, e.later, f.later);
  }

  pub open_waiter-Evolves : (w : Waiters A) (key : Key) → Evolves w (open_waiter w key).0
  unfolding open_waiter
  open_waiter-Evolves w key = record {
    valid = open_waiter-IsValid w key;
    kept = λ n h d. ground arith;
    later = omega arith;
  }

  pub pop_waiter-Evolves : (w : Waiters A) (key : Key) → Evolves w (pop_waiter w key)
  unfolding pop_waiter
  pop_waiter-Evolves w key = record {
    valid = pop_waiter-IsValid w key;
    kept = λ n h d. refl;
    later = omega arith;
  }

  settled_done : (outcome f : Future A) → is_done f ≡ true → settled outcome f ≡ f
  settled_done outcome waiting h = cc
  settled_done outcome (done_with a) h = refl
  settled_done outcome (failed message) h = refl

  pub settle-Evolves :
      (w : Waiters A) (number : ℕ) (outcome : Future A) → Evolves w (settle w number outcome)
  unfolding settle lookup
  settle-Evolves w number outcome = record {
    valid = λ v. record { apart = v.apart; used = v.used };
    kept = λ n h d. ground (arith, settled_done outcome (w.futures n));
    later = omega arith;
  }

  pub settle_key-Evolves :
      (w : Waiters A) (key : Key) (outcome : Future A) → Evolves w (settle_key w key outcome)
  unfolding settle_key
  settle_key-Evolves w key outcome = elim (Option-cases (lookup w key)) [
    | inl e ↦ rw (settle_key, e) (pop_waiter-Evolves w key)
    | inr (number, e) ↦
        rw (settle_key, e)
          (Evolves-trans (pop_waiter-Evolves w key)
            (settle-Evolves (pop_waiter w key) number outcome))
  ]

  settle_each-Evolves :
      (w : Waiters A) (keys : List Key) (outcome : Future A)
      → Evolves w (settle_each w keys outcome)
  unfolding settle_each
  settle_each-Evolves w [] outcome = Evolves-refl w
  settle_each-Evolves w (key ∷ keys) outcome =
      Evolves-trans (settle_key-Evolves w key outcome)
        (settle_each-Evolves (settle_key w key outcome) keys outcome)

  pub settle_first-Evolves :
      (w : Waiters A) (first : String) (outcome : Future A)
      → Evolves w (settle_first w first outcome)
  unfolding settle_first
  settle_first-Evolves w first outcome = settle_each-Evolves w (targets w.entries first) outcome

  pub settle_first-IsValid :
      (w : Waiters A) (first : String) (outcome : Future A)
      → IsValid w
      → IsValid (settle_first w first outcome)
  settle_first-IsValid w first outcome = (settle_first-Evolves w first outcome).valid

  pub is_done-settled :
      (outcome f : Future A) → is_done outcome ≡ true → is_done (settled outcome f) ≡ true
  is_done-settled outcome waiting h = h
  is_done-settled outcome (done_with a) h = refl
  is_done-settled outcome (failed message) h = refl
