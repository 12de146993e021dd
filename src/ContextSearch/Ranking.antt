-- ===== src/ContextSearch/Ranking.antt =====
-- backend/app/context_search.py: which candidates `search_context_candidates` gives.
use pocage.Prelude.{
  ℕ, zero, suc, ◌≤◌, ◌<◌, filter, length-take, length-drop, length-filter-sort, String, ◌≡◌, refl,
  ap, ◌∙◌, Bool, true, false, some, List, [], ◌∷◌, ◌++◌, map, take, drop, length, All, sort_by,
  IsSorted, sort-IsSorted, take-append-drop, arith,
}
use pocage.Text.{strip, is_nonempty}
use pocage.ContextSearch.Order.{text_le-total, text_le_trans}
use pocage.ContextSearch.Search.{Folder, Scored, comes_before, in_folder, search_context_candidates}

comes_before_total : (a b : Scored) → comes_before a b ≡ false → comes_before b a ≡ true
unfolding comes_before
comes_before_total a b h =
    ground (arith, text_le-total a.candidate.relative_path b.candidate.relative_path)

comes_before_trans :
    (a b c : Scored) → comes_before a b ≡ true → comes_before b c ≡ true → comes_before a c ≡ true
unfolding comes_before
comes_before_trans a b c h k = ground (
  arith,
  text_le_trans a.candidate.relative_path b.candidate.relative_path c.candidate.relative_path,
)

-- A first part of what was found, and the rest.
pub record IsBest (found : List Scored) (limit : ℕ) (given left_out : List Scored) : Type 0 where
  pub ordered : IsSorted comes_before given
  pub bounded : length given ≤ limit
  pub full : 0 < length left_out → length given ≡ limit
  pub best : All (λ a. All (λ b. comes_before a b ≡ true) left_out) given
  pub whole : (p : Scored → Bool) → length (filter p (given ++ left_out)) ≡ length (filter p found)

All-take {ℓ κ} : {A : Type ℓ} (P : A → Type κ) (n : ℕ) (xs : List A) → All P xs → All P (take n xs)
All-take P zero xs a = tt
All-take P (suc n) [] a = tt
All-take P (suc n) (x ∷ xs) a = (a.0, All-take P n xs a.1)

All-drop {ℓ κ} : {A : Type ℓ} (P : A → Type κ) (n : ℕ) (xs : List A) → All P xs → All P (drop n xs)
All-drop P zero xs a = a
All-drop P (suc n) [] a = tt
All-drop P (suc n) (x ∷ xs) a = All-drop P n xs a.1

take-IsSorted :
    (n : ℕ) (xs : List Scored) → IsSorted comes_before xs → IsSorted comes_before (take n xs)
take-IsSorted zero xs s = tt
take-IsSorted (suc n) [] s = tt
take-IsSorted (suc n) (x ∷ xs) s =
    (All-take (λ y. comes_before x y ≡ true) n xs s.0, take-IsSorted n xs s.1)

take-before-drop :
    (n : ℕ) (xs : List Scored)
    → IsSorted comes_before xs
    → All (λ a. All (λ b. comes_before a b ≡ true) (drop n xs)) (take n xs)
take-before-drop zero xs s = tt
take-before-drop (suc n) [] s = tt
take-before-drop (suc n) (x ∷ xs) s =
    (All-drop (λ y. comes_before x y ≡ true) n xs s.0, take-before-drop n xs s.1)

first_ones-IsBest :
    (found : List Scored) (limit : ℕ)
    → let ranked = sort_by comes_before found in
      IsBest found limit (take limit ranked) (drop limit ranked)
first_ones-IsBest found limit =
    let ranked = sort_by comes_before found in
    let sorted = sort-IsSorted comes_before comes_before_total comes_before_trans found in
    record {
      ordered = take-IsSorted limit ranked sorted;
      bounded = omega (arith, length-take limit ranked);
      full = λ h. omega (arith, length-take limit ranked, length-drop limit ranked);
      best = take-before-drop limit ranked sorted;
      whole = λ p.
          ap (λ xs. length (filter p xs)) (take-append-drop limit ranked)
          ∙ length-filter-sort p comes_before found;
    }

-- For a query that is not blank, what is given are the best of the candidates that are found: they
-- are in order, at most as many as the limit, and as many where some are left out; each of them comes
-- before each that is left out, and together they are all that was found.
pub search_context_candidates-IsBest :
    (lower as_uri : String → String) (root : Folder) (query : String) (limit : ℕ)
    → is_nonempty (strip query) ≡ true
    → (given : List Scored) × (left_out : List Scored) × IsBest
        (in_folder lower as_uri (strip query) "" root)
        limit
        given
        left_out
      × (search_context_candidates lower as_uri (some root) query limit
          ≡ map (λ s. s.candidate) given)
unfolding search_context_candidates
search_context_candidates-IsBest lower as_uri root query limit h =
    let found = in_folder lower as_uri (strip query) "" root in
    (
      take limit (sort_by comes_before found),
      drop limit (sort_by comes_before found),
      first_ones-IsBest found limit,
      rw (search_context_candidates, h) refl,
    )
