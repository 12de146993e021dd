-- ===== src/Dict.antt =====
-- Python's `dict` with text keys, in insertion order: writing to a key that is there keeps its
-- place, a new key goes to the end.
use pocage.Prelude.{
  ℕ, ◌+◌, ◌≤◌, String, ◌≡◌, refl, ap, Bool, true, false, Option, none, some, List, [], ◌∷◌, map,
  arith, ◌==◌, eq_iff, eq_refl, if◌then◌else◌, is_some, filter, length, All,
}

abbrev pub Dict {ℓ} : Type ℓ → Type ℓ
Dict V = List (String × V)

module _ {ℓ} {V : Type ℓ} where
  -- d.get(k)
  unfoldable pub get : Dict V → String → Option V
  get [] k = none
  get ((j, v) ∷ d) k = if j == k then some v else get d k

  -- d[k] = v
  unfoldable pub put : Dict V → String → V → Dict V
  put [] k v = (k, v) ∷ []
  put ((j, w) ∷ d) k v = if j == k then (j, v) ∷ d else (j, w) ∷ put d k v

  -- d.pop(k, None)
  unfoldable pub pop : Dict V → String → Dict V
  pop [] k = []
  pop ((j, v) ∷ d) k = let rest = pop d k in if j == k then rest else (j, v) ∷ rest

  -- k in d
  abbrev pub has : Dict V → String → Bool
  has d k = is_some (get d k)

  abbrev pub values : Dict V → List V
  values = map (λ e. e.1)

  abbrev pub keys : Dict V → List String
  keys = map (λ e. e.0)

  pub get-put :
      (d : Dict V) (k j : String) (v : V) → get (put d k v) j ≡ (if k == j then some v else get d j)
  unfolding get put
  get-put [] k j v = refl
  get-put ((i, w) ∷ d) k j v = ground (arith, eq_iff i k, eq_iff i j, eq_iff k j, get-put d k j v)

  pub get-pop : (d : Dict V) (k j : String) → get (pop d k) j ≡ (if k == j then none else get d j)
  unfolding get pop
  get-pop [] k j = ground arith
  get-pop ((i, w) ∷ d) k j = ground (arith, eq_iff i k, eq_iff i j, eq_iff k j, get-pop d k j)

  pub get-put_self : (d : Dict V) (k : String) (v : V) → get (put d k v) k ≡ some v
  get-put_self d k v = ground (arith, get-put d k k v, eq_refl k)

  pub length-pop : (d : Dict V) (k : String) → length (pop d k) ≤ length d
  unfolding pop
  length-pop [] k = omega arith
  length-pop ((i, w) ∷ d) k = ground (arith, length-pop d k)

  -- Each key stands in one entry.
  abbrev pub Distinct : Dict V → Type ℓ
  Distinct [] = Unit
  Distinct ((k, v) ∷ d) = (get d k ≡ none) × Distinct d

  pub put-Distinct : (d : Dict V) (k : String) (v : V) → Distinct d → Distinct (put d k v)
  unfolding put get
  put-Distinct [] k v h = (refl, tt)
  put-Distinct ((j, w) ∷ d) k v h =
      ground (arith, get-put d k j v, eq_iff k j, eq_iff j k, put-Distinct d k v h.1)

  pub pop-Distinct : (d : Dict V) (k : String) → Distinct d → Distinct (pop d k)
  unfolding pop
  pop-Distinct [] k h = tt
  pop-Distinct ((j, w) ∷ d) k h = ground (arith, get-pop d k j, pop-Distinct d k h.1)

  tail_entries :
      (j : String) (v : V) (d e : Dict V)
      → get d j ≡ none
      → All (λ x. get d x.0 ≡ some x.1) e
      → All (λ x. get ((j, v) ∷ d) x.0 ≡ some x.1) e
  unfolding get
  tail_entries j v d [] h a = tt
  tail_entries j v d ((k, w) ∷ e) h a = ground (arith, eq_iff j k, tail_entries j v d e h a.1)

  -- In such a dict each entry is what `get` finds at its key.
  pub Distinct-entries : (d : Dict V) → Distinct d → All (λ x. get d x.0 ≡ some x.1) d
  unfolding get
  Distinct-entries [] h = tt
  Distinct-entries ((j, v) ∷ d) h =
      (rw (eq_refl j), tail_entries j v d d h.0 (Distinct-entries d h.1))

pub ruleset dict_laws = (get-put, get-pop, eq_refl)
