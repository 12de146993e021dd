-- ===== src/Prelude/Lists.antt =====
-- Lists measured by native numbers and filtered by Boolean tests.
use Prim.Native.Nat.{ℕ, zero, suc, ◌+◌, ◌-◌, ◌≤◌, min}
use mathlib.Core.Path.{◌≡◌, refl, sym, ap, ◌∙◌}
use mathlib.Core.Bool.{Bool, false, ◌||◌}
use mathlib.Core.List
use mathlib.Core.List.{List, [], ◌∷◌, ◌++◌, Sublistᴰ}
use native.Mathlib.Omega.{arith}
use pocage.Prelude.Tests.{if◌then◌else◌}

module _ {ℓ} {A : Type ℓ} where
  abbrev pub length : List A → ℕ
  length [] = 0
  length (x ∷ xs) = suc (length xs)

  abbrev pub take : ℕ → List A → List A
  take zero xs = []
  take (suc n) [] = []
  take (suc n) (x ∷ xs) = x ∷ take n xs

  abbrev pub drop : ℕ → List A → List A
  drop zero xs = xs
  drop (suc n) [] = []
  drop (suc n) (x ∷ xs) = drop n xs

  -- `[x for x in xs if p(x)]`
  abbrev pub filter : (A → Bool) → List A → List A
  filter p [] = []
  filter p (x ∷ xs) = let rest = filter p xs in if p x then x ∷ rest else rest

  -- `any(p(x) for x in xs)`
  abbrev pub any : (A → Bool) → List A → Bool
  any p [] = false
  any p (x ∷ xs) = p x || any p xs

  abbrev pub All {κ} : (A → Type κ) → List A → Type κ
  All P [] = Unit
  All P (x ∷ xs) = P x × All P xs

  pub length-append : (xs ys : List A) → length (xs ++ ys) ≡ length xs + length ys
  length-append [] ys = omega arith
  length-append (x ∷ xs) ys = omega (arith, length-append xs ys)

  pub length-drop : (n : ℕ) (xs : List A) → length (drop n xs) ≡ length xs - n
  length-drop zero xs = omega arith
  length-drop (suc n) [] = omega arith
  length-drop (suc n) (x ∷ xs) = omega (arith, length-drop n xs)

  pub length-take : (n : ℕ) (xs : List A) → length (take n xs) ≡ min n (length xs)
  length-take zero xs = omega arith
  length-take (suc n) [] = omega arith
  length-take (suc n) (x ∷ xs) = omega (arith, length-take n xs)

  pub take-append-drop : (n : ℕ) (xs : List A) → take n xs ++ drop n xs ≡ xs
  take-append-drop zero xs = refl
  take-append-drop (suc n) [] = refl
  take-append-drop (suc n) (x ∷ xs) = ap (◌∷◌ x) (take-append-drop n xs)

  pub length-filter-le : (p : A → Bool) (xs : List A) → length (filter p xs) ≤ length xs
  length-filter-le p [] = omega arith
  length-filter-le p (x ∷ xs) = ground (arith, length-filter-le p xs)

  pub filter-append :
      (p : A → Bool) (xs ys : List A) → filter p (xs ++ ys) ≡ filter p xs ++ filter p ys
  filter-append p [] ys = refl
  filter-append p (x ∷ xs) ys = ground (arith, filter-append p xs ys)

  pub any-append : (p : A → Bool) (xs ys : List A) → any p (xs ++ ys) ≡ any p xs || any p ys
  any-append p [] ys = refl
  any-append p (x ∷ xs) ys = ground (arith, any-append p xs ys)

  pub All-append {κ} : (P : A → Type κ) (xs ys : List A) → All P xs → All P ys → All P (xs ++ ys)
  All-append P [] ys a b = b
  All-append P (x ∷ xs) ys a b = (a.0, All-append P xs ys a.1 b)

  pub All-filter {κ} :
      (P : A → Type κ) (p : A → Bool) (xs : List A) → All P xs → All P (filter p xs)
  All-filter P p [] a = tt
  All-filter P p (x ∷ xs) a = ground (arith, All-filter P p xs a.1)

  pub any-filter : (p : A → Bool) (xs : List A) → any p xs ≡ false → filter p xs ≡ []
  any-filter p [] h = refl
  any-filter p (x ∷ xs) h = ground (arith, any-filter p xs)

  pub sublist-snoc :
      (xs : List A) {ys zs : List A} → Sublistᴰ ys zs → Sublistᴰ (ys ++ xs) (zs ++ xs)
  sublist-snoc xs Sublistᴰ.slnil = List.Sublistᴰ.refl xs
  sublist-snoc xs (Sublistᴰ.cons s) = Sublistᴰ.cons (sublist-snoc xs s)
  sublist-snoc xs (Sublistᴰ.cons-cons e s) = Sublistᴰ.cons-cons e (sublist-snoc xs s)

  pub sublist-append_right : (x : A) {ys zs : List A} → Sublistᴰ ys zs → Sublistᴰ ys (zs ++ x ∷ [])
  sublist-append_right x Sublistᴰ.slnil = Sublistᴰ.cons Sublistᴰ.slnil
  sublist-append_right x (Sublistᴰ.cons s) = Sublistᴰ.cons (sublist-append_right x s)
  sublist-append_right x (Sublistᴰ.cons-cons e s) = Sublistᴰ.cons-cons e (sublist-append_right x s)

  pub sublist-drop_one : (xs : List A) → Sublistᴰ (drop 1 xs) xs
  sublist-drop_one [] = Sublistᴰ.slnil
  sublist-drop_one (x ∷ xs) = Sublistᴰ.cons (List.Sublistᴰ.refl xs)

  pub sublist-length-filter :
      (p : A → Bool) {xs ys : List A} → Sublistᴰ xs ys → length (filter p xs) ≤ length (filter p ys)
  sublist-length-filter p Sublistᴰ.slnil = omega arith
  sublist-length-filter p (Sublistᴰ.cons {a = x} s) = ground (arith, sublist-length-filter p s)
  sublist-length-filter p (Sublistᴰ.cons-cons {a = x} {b = y} e s) =
      ground (arith, sublist-length-filter p s)

  pub drop-append : (n : ℕ) (xs ys : List A) → n ≤ length xs → drop n xs ++ ys ≡ drop n (xs ++ ys)
  drop-append zero xs ys h = refl
  drop-append (suc n) [] ys h = absurd (omega arith)
  drop-append (suc n) (x ∷ xs) ys h = drop-append n xs ys (omega arith)

  drop-nil : (n : ℕ) → drop n [] ≡ []
  drop-nil zero = refl
  drop-nil (suc n) = refl

  pub drop-drop : (m n : ℕ) (xs : List A) → drop m (drop n xs) ≡ drop (n + m) xs
  drop-drop m zero xs = ap (λ k. drop k xs) (omega arith)
  drop-drop m (suc n) [] = drop-nil m ∙ sym (drop-nil (suc n + m))
  drop-drop m (suc n) (x ∷ xs) =
      let e : suc (n + m) ≡ suc n + m = omega arith in
      drop-drop m n xs ∙ ap (λ k. drop k (x ∷ xs)) e
