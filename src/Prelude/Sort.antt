-- ===== src/Prelude/Sort.antt =====
-- Python's `sorted`: stable, by an order that is given as a Boolean test.
use mathlib.Core.Path.{◌≡◌, refl}
use mathlib.Core.Bool.{Bool, true, false}
use mathlib.Core.List.{List, [], ◌∷◌}
use native.Mathlib.Omega.{arith}
use pocage.Prelude.Tests.{if◌then◌else◌}
use pocage.Prelude.Lists.{length, filter, All}

module _ {ℓ} {A : Type ℓ} where
  abbrev pub insert_by : (A → A → Bool) → A → List A → List A
  insert_by le x [] = x ∷ []
  insert_by le x (y ∷ ys) = let rest = insert_by le x ys in if le x y then x ∷ y ∷ ys else y ∷ rest

  abbrev pub sort_by : (A → A → Bool) → List A → List A
  sort_by le [] = []
  sort_by le (x ∷ xs) = insert_by le x (sort_by le xs)

  length-filter-insert :
      (p : A → Bool) (le : A → A → Bool) (x : A) (ys : List A)
      → length (filter p (insert_by le x ys)) ≡ length (filter p (x ∷ ys))
  length-filter-insert p le x [] = refl
  length-filter-insert p le x (y ∷ ys) = ground (arith, length-filter-insert p le x ys)

  -- Sorting keeps how many items pass a test.
  pub length-filter-sort :
      (p : A → Bool) (le : A → A → Bool) (xs : List A)
      → length (filter p (sort_by le xs)) ≡ length (filter p xs)
  length-filter-sort p le [] = refl
  length-filter-sort p le (x ∷ xs) =
      ground (arith, length-filter-insert p le x (sort_by le xs), length-filter-sort p le xs)

  pub All-insert {κ} :
      (P : A → Type κ) (le : A → A → Bool) (x : A) (ys : List A)
      → P x
      → All P ys
      → All P (insert_by le x ys)
  All-insert P le x [] p a = (p, tt)
  All-insert P le x (y ∷ ys) p a = choose (le x y) (All-insert P le x ys p a.1)
    where
      choose :
          (b : Bool)
          → All P (insert_by le x ys)
          → All P (if b then x ∷ y ∷ ys else y ∷ insert_by le x ys)
      choose true r = (p, a)
      choose false r = (a.0, r)

  pub All-sort {κ} :
      (P : A → Type κ) (le : A → A → Bool) (xs : List A) → All P xs → All P (sort_by le xs)
  All-sort P le [] a = tt
  All-sort P le (x ∷ xs) a = All-insert P le x (sort_by le xs) a.0 (All-sort P le xs a.1)

  -- Every item comes before all that follow it.
  abbrev pub IsSorted : (A → A → Bool) → List A → Type 0
  IsSorted le [] = Unit
  IsSorted le (x ∷ xs) = All (λ y. le x y ≡ true) xs × IsSorted le xs

module _ {ℓ} {A : Type ℓ} (le : A → A → Bool) (total : (x y : A) → le x y ≡ false → le y x ≡ true)
    (transitive : (x y z : A) → le x y ≡ true → le y z ≡ true → le x z ≡ true) where
  All-le :
      (x y : A) (ys : List A)
      → le x y ≡ true
      → All (λ z. le y z ≡ true) ys
      → All (λ z. le x z ≡ true) ys
  All-le x y [] h a = tt
  All-le x y (z ∷ ys) h a = (transitive x y z h a.0, All-le x y ys h a.1)

  insert-IsSorted : (x : A) (ys : List A) → IsSorted le ys → IsSorted le (insert_by le x ys)
  insert-IsSorted x [] s = (tt, tt)
  insert-IsSorted x (y ∷ ys) s = choose (le x y) refl (insert-IsSorted x ys s.1)
    where
      choose :
          (b : Bool)
          → le x y ≡ b
          → IsSorted le (insert_by le x ys)
          → IsSorted le (if b then x ∷ y ∷ ys else y ∷ insert_by le x ys)
      choose true e r = ((e, All-le x y ys e s.0), s)
      choose false e r = (All-insert (λ z. le y z ≡ true) le x ys (total x y e) s.0, r)

  pub sort-IsSorted : (xs : List A) → IsSorted le (sort_by le xs)
  sort-IsSorted [] = tt
  sort-IsSorted (x ∷ xs) = insert-IsSorted x (sort_by le xs) (sort-IsSorted xs)
