-- ===== src/Waiters/Laws.antt =====
-- What the operations on waiters do to the table and to the futures in it.
use pocage.Prelude.{
  ℕ, ◌<◌, String, ◌≡◌, ◌≢◌, refl, ap, ◌∙◌, true, ◌&&◌, none, some, List, [], ◌∷◌, ◌==◌, same,
  if◌then◌else◌, is_some, arith, eq_iff, Bool-cases, Option-cases, inl, inr,
}
use pocage.Waiters.{
  Future, Key, same_key, mem_key, Waiters, find, put, pop, settled, no_waiters, lookup, open_waiter,
  pop_waiter, settle, settle_key, settle_each, targets, settle_first,
}

find-pop :
    (entries : List (Key × ℕ)) (k j : Key)
    → find (pop entries k) j ≡ (if same_key k j then none else find entries j)
unfolding find pop
find-pop [] k j = ground arith
find-pop ((i, n) ∷ rest) k j = ground (
  arith,
  find-pop rest k j,
  eq_iff i.0 k.0,
  eq_iff i.1 k.1,
  eq_iff i.0 j.0,
  eq_iff i.1 j.1,
  eq_iff k.0 j.0,
  eq_iff k.1 j.1,
)

find-put :
    (entries : List (Key × ℕ)) (k j : Key) (n : ℕ)
    → find (put entries k n) j ≡ (if same_key k j then some n else find entries j)
unfolding find put
find-put [] k j n = ground arith
find-put ((i, m) ∷ rest) k j n = ground (
  arith,
  find-put rest k j n,
  eq_iff i.0 k.0,
  eq_iff i.1 k.1,
  eq_iff i.0 j.0,
  eq_iff i.1 j.1,
  eq_iff k.0 j.0,
  eq_iff k.1 j.1,
)

-- Two keys of the table never hold the same future, and the futures in it are in use.
pub record IsValid {ℓ} {A : Type ℓ} (w : Waiters A) : Type ℓ where
  pub apart : (k j : Key) (n : ℕ) → lookup w k ≡ some n → lookup w j ≡ some n → same_key k j ≡ true
  pub used : (k : Key) (n : ℕ) → lookup w k ≡ some n → n < w.next_future

module _ {ℓ} {A : Type ℓ} where
  pub lookup-settle_key :
      (w : Waiters A) (k j : Key) (outcome : Future A)
      → lookup (settle_key w k outcome) j ≡ (if same_key k j then none else lookup w j)
  unfolding settle_key settle pop_waiter lookup
  lookup-settle_key w k j outcome = elim (Option-cases (find w.entries k)) [
    | inl e ↦ rw (settle_key, lookup, e) (find-pop w.entries k j)
    | inr (n, e) ↦ rw (settle_key, lookup, e) (find-pop w.entries k j)
  ]

  pub lookup-settle_each :
      (w : Waiters A) (ks : List Key) (j : Key) (outcome : Future A)
      → lookup (settle_each w ks outcome) j ≡ (if mem_key j ks then none else lookup w j)
  unfolding settle_each
  lookup-settle_each w [] j outcome = refl
  lookup-settle_each w (k ∷ ks) j outcome =
      lookup-settle_each (settle_key w k outcome) ks j outcome
      ∙ ground (arith, lookup-settle_key w k j outcome)

  next-settle_key :
      (w : Waiters A) (k : Key) (outcome : Future A)
      → (settle_key w k outcome).next_future ≡ w.next_future
  unfolding settle_key settle pop_waiter
  next-settle_key w k outcome = ground arith

  pub settle_key-IsValid :
      (w : Waiters A) (k : Key) (outcome : Future A) → IsValid w → IsValid (settle_key w k outcome)
  settle_key-IsValid w k outcome v = record {
    apart = λ i j n a b.
        ground
          (arith, lookup-settle_key w k i outcome, lookup-settle_key w k j outcome, v.apart i j n);
    used = λ i n a.
        rw (next-settle_key w k outcome)
          (v.used i n (ground (arith, lookup-settle_key w k i outcome)));
  }

  futures-settle_key :
      (w : Waiters A) (k : Key) (outcome : Future A) (n : ℕ)
      → (settle_key w k outcome).futures n ≡ elim (lookup w k) [
        | none ↦ w.futures n
        | some m ↦ (if same n m then settled outcome (w.futures n) else w.futures n)
      ]
  unfolding settle_key settle pop_waiter
  futures-settle_key w k outcome n = elim (Option-cases (lookup w k)) [
    | inl e ↦ rw (settle_key, e) refl
    | inr (m, e) ↦ rw (settle_key, e) refl
  ]

  same_key-lookup : (w : Waiters A) (k j : Key) → same_key k j ≡ true → lookup w k ≡ lookup w j
  same_key-lookup w (k, l) (i, j) h =
      ap (lookup w) (λ t. ((eq_iff k i).0 (ground arith) t, (eq_iff l j).0 (ground arith) t))

  -- A future outside the table is not settled.
  futures-settle_key_outside :
      (w : Waiters A) (k : Key) (outcome : Future A) (n : ℕ)
      → (lookup w k ≢ some n)
      → (settle_key w k outcome).futures n ≡ w.futures n
  futures-settle_key_outside w k outcome n h = elim (Option-cases (lookup w k)) [
    | inl e ↦ futures-settle_key w k outcome n ∙ rw e refl
    | inr (m, e) ↦ elim (Bool-cases (same n m)) [
      | inl g ↦ absurd (h (e ∙ ap some (ground arith)))
      | inr g ↦ futures-settle_key w k outcome n ∙ rw (e, g) refl
    ]
  ]

  pub futures-settle_each_outside :
      (w : Waiters A) (ks : List Key) (outcome : Future A) (n : ℕ)
      → ((k : Key) → lookup w k ≢ some n)
      → (settle_each w ks outcome).futures n ≡ w.futures n
  unfolding settle_each
  futures-settle_each_outside w [] outcome n h = refl
  futures-settle_each_outside w (k ∷ ks) outcome n h =
      futures-settle_each_outside (settle_key w k outcome) ks outcome n
        (λ j g. h j (ground (arith, lookup-settle_key w k j outcome)))
      ∙ futures-settle_key_outside w k outcome n (h k)

  -- The future under a key is settled where the key is among those of a settling.
  futures-settle_each :
      (w : Waiters A) (ks : List Key) (outcome : Future A) (j : Key) (n : ℕ)
      → IsValid w
      → lookup w j ≡ some n
      → (settle_each w ks outcome).futures n
        ≡ (if mem_key j ks then settled outcome (w.futures n) else w.futures n)
  unfolding settle_each
  futures-settle_each w [] outcome j n v h = refl
  futures-settle_each w (k ∷ ks) outcome j n v h = elim (Bool-cases (same_key k j)) [
    | inl e ↦
        futures-settle_each_outside (settle_key w k outcome) ks outcome n (λ i g.
          let here = same_key-lookup w k j e ∙ h in
          ground (arith, lookup-settle_key w k i outcome, v.apart k i n))
        ∙ futures-settle_key w k outcome n
        ∙ rw (same_key-lookup w k j e, h) (ground arith)
    | inr e ↦
        futures-settle_each (settle_key w k outcome) ks outcome j n
          (settle_key-IsValid w k outcome v) (lookup-settle_key w k j outcome ∙ ground arith)
        ∙ ap (λ f. if mem_key j ks then settled outcome f else f)
            (futures-settle_key_outside w k outcome n (λ g. let both = v.apart k j n g h in cc))
        ∙ ground arith
  ]

mem-targets :
    (entries : List (Key × ℕ)) (j : Key) (first : String)
    → mem_key j (targets entries first) ≡ (j.0 == first) && is_some (find entries j)
unfolding targets find
mem-targets [] j first = ground arith
mem-targets ((k, n) ∷ rest) j first = elim (Bool-cases (k.0 == first)) [
  | inl e ↦
      rw e (
        ground
          (arith, mem-targets rest j first, eq_iff k.0 j.0, eq_iff k.0 first, eq_iff j.0 first))
  | inr e ↦
      rw e (
        ground
          (arith, mem-targets rest j first, eq_iff k.0 j.0, eq_iff k.0 first, eq_iff j.0 first))
]

module _ {ℓ} {A : Type ℓ} where
  pub lookup-settle_first :
      (w : Waiters A) (first : String) (outcome : Future A) (key : Key)
      → lookup (settle_first w first outcome) key ≡ (if key.0 == first then none else lookup w key)
  unfolding settle_first lookup
  lookup-settle_first w first outcome key =
      lookup-settle_each w (targets w.entries first) key outcome
      ∙ ground (arith, mem-targets w.entries key first)

  pub futures-settle_first :
      (w : Waiters A) (first : String) (outcome : Future A) (key : Key) (n : ℕ)
      → IsValid w
      → lookup w key ≡ some n
      → (settle_first w first outcome).futures n
        ≡ (if key.0 == first then settled outcome (w.futures n) else w.futures n)
  unfolding settle_first lookup
  futures-settle_first w first outcome key n v h =
      futures-settle_each w (targets w.entries first) outcome key n v h
      ∙ ground (arith, mem-targets w.entries key first)

  pub lookup-open_waiter :
      (w : Waiters A) (k j : Key)
      → lookup (open_waiter w k).0 j ≡ (if same_key k j then some w.next_future else lookup w j)
  unfolding lookup open_waiter
  lookup-open_waiter w k j = find-put w.entries k j w.next_future

  pub open_waiter-IsValid : (w : Waiters A) (key : Key) → IsValid w → IsValid (open_waiter w key).0
  unfolding open_waiter
  open_waiter-IsValid w key v = record {
    apart = λ i j n a b. ground (
      arith,
      lookup-open_waiter w key i,
      lookup-open_waiter w key j,
      v.apart i j n,
      v.used i n,
      v.used j n,
      eq_iff key.0 i.0,
      eq_iff key.1 i.1,
      eq_iff key.0 j.0,
      eq_iff key.1 j.1,
      eq_iff i.0 j.0,
      eq_iff i.1 j.1,
    );
    used = λ i n a. ground (arith, lookup-open_waiter w key i, v.used i n);
  }

  pub lookup-pop_waiter :
      (w : Waiters A) (k j : Key)
      → lookup (pop_waiter w k) j ≡ (if same_key k j then none else lookup w j)
  unfolding lookup pop_waiter
  lookup-pop_waiter w k j = find-pop w.entries k j

  pub pop_waiter-IsValid : (w : Waiters A) (key : Key) → IsValid w → IsValid (pop_waiter w key)
  unfolding pop_waiter
  pop_waiter-IsValid w key v = record {
    apart = λ i j n a b.
        ground (arith, lookup-pop_waiter w key i, lookup-pop_waiter w key j, v.apart i j n);
    used = λ i n a. v.used i n (ground (arith, lookup-pop_waiter w key i));
  }

  pub no_waiters-IsValid : IsValid (no_waiters {A = A})
  unfolding no_waiters lookup find
  no_waiters-IsValid = record { apart = λ k j n a b. cc; used = λ k n a. cc }
