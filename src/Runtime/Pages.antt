-- ===== src/Runtime/Pages.antt =====
-- backend/app/runtime_state.py: following the cursors of `list_sessions`.
use pocage.Prelude.{
  ℕ, suc, zero, ◌+◌, ◌≤◌, ◌<◌, String, ◌≡◌, refl, sym, ap, subst, ◌∙◌, Bool, true, false, Option,
  none, some, List, [], ◌∷◌, ◌++◌, append_assoc, map, arith, ◌==◌, eq_iff, one_of, if◌then◌else◌,
  Bool-cases, inl, inr, length, take, drop, take-append-drop, length-drop, ltb, All,
}
use pocage.Text.{is_nonempty}
use pocage.Runtime.State.{Session, RuntimeState}
use pocage.Runtime.Claim.{IsNodup}
use pocage.Runtime.Sessions.{listed_rows, after, rows_after, last_id, page_of, list_sessions}

abbrev ids_of : List Session → List String
ids_of = map (λ row. row.id)

last_id-one_of :
    (rows : List Session) (c : String) → last_id rows ≡ some c → one_of c (ids_of rows) ≡ true
last_id-one_of [] c h = cc
last_id-one_of (row ∷ []) c h = ground (arith, eq_iff c row.id)
last_id-one_of (row ∷ next ∷ rest) c h = ground (arith, last_id-one_of (next ∷ rest) c h)

one_of-append :
    (c : String) (xs ys : List Session)
    → one_of c (ids_of xs) ≡ true
    → one_of c (ids_of (xs ++ ys)) ≡ true
one_of-append c [] ys h = cc
one_of-append c (x ∷ xs) ys h = ground (arith, one_of-append c xs ys)

-- The cursor of a page finds the rows behind the page.
after-last_id :
    (page more : List Session) (c : String)
    → IsNodup (ids_of (page ++ more))
    → last_id page ≡ some c
    → after c (page ++ more) ≡ some more
unfolding after
after-last_id [] more c n h = cc
after-last_id (row ∷ []) more c n h = ground (arith, eq_iff row.id c)
after-last_id (row ∷ next ∷ rest) more c n h = ground (
  arith,
  eq_iff row.id c,
  one_of-append c (next ∷ rest) more (last_id-one_of (next ∷ rest) c h),
  after-last_id (next ∷ rest) more c n.1 h,
)

last_id-append :
    (xs : List Session) (y : Session) (ys : List Session)
    → last_id (xs ++ y ∷ ys) ≡ last_id (y ∷ ys)
last_id-append [] y ys = refl
last_id-append (x ∷ []) y ys = refl
last_id-append (x ∷ next ∷ rest) y ys = last_id-append (next ∷ rest) y ys

last_id-some :
    (row : Session) (rows : List Session) → (c : String) × (last_id (row ∷ rows) ≡ some c)
last_id-some row [] = (row.id, refl)
last_id-some row (next ∷ rest) = last_id-some next rest

take_all : (n : ℕ) (rows : List Session) → length rows ≤ n → take n rows ≡ rows
take_all zero [] h = refl
take_all zero (row ∷ rows) h = absurd (omega arith)
take_all (suc n) [] h = refl
take_all (suc n) (row ∷ rows) h = ap (◌∷◌ row) (take_all n rows (omega arith))

abbrev pub AreNamed : List Session → Type 0
AreNamed = All (λ row. is_nonempty row.id ≡ true)

nonempty_id :
    (rows : List Session) (c : String)
    → AreNamed rows
    → one_of c (ids_of rows) ≡ true
    → is_nonempty c ≡ true
nonempty_id [] c a h = cc
nonempty_id (row ∷ rows) c a h = elim (Bool-cases (c == row.id)) [
  | inl e ↦ ground (arith, eq_iff c row.id, a.0)
  | inr e ↦ nonempty_id rows c a.1 (ground arith)
]

abbrev pub follow : List Session → Option String → (String → List Session) → List Session
follow page none next = page
follow page (some c) next = page ++ next c

-- All rows that one gets by following the cursors, with pages of `limit` rows.
unfoldable pub walk :
    RuntimeState → Option (List String) → (limit fuel : ℕ) → Option String → List Session
walk s owned limit zero cursor = []
walk s owned limit (suc fuel) cursor =
    let page = list_sessions s limit cursor owned in
    follow page.0 page.1 (λ c. walk s owned limit fuel (some c))

module _ (s : RuntimeState) (owned : Option (List String)) (n : ℕ)
    (nodup : IsNodup (ids_of (listed_rows s owned))) (named : AreNamed (listed_rows s owned)) where
  rows_after-last_id :
      (before page more : List Session) (row : Session) (c : String)
      → listed_rows s owned ≡ (before ++ row ∷ page) ++ more
      → last_id (row ∷ page) ≡ some c
      → rows_after (some c) (listed_rows s owned) ≡ more
  unfolding rows_after
  rows_after-last_id before page more row c e h =
      let l = last_id-append before row page ∙ h in
      let found : after c (listed_rows s owned) ≡ some more =
        ap (after c) e
        ∙ after-last_id (before ++ row ∷ page) more c (subst (λ rs. IsNodup (ids_of rs)) e nodup)
            l in
      let there : one_of c (ids_of (listed_rows s owned)) ≡ true =
        ap (λ rs. one_of c (ids_of rs)) e
        ∙ one_of-append c (before ++ row ∷ page) more (last_id-one_of (before ++ row ∷ page) c l) in
      rw (nonempty_id (listed_rows s owned) c named there, found) refl

  walk-step :
      (fuel : ℕ) (cursor : Option String) (rest : List Session)
      → rows_after cursor (listed_rows s owned) ≡ rest
      → walk s owned (suc n) (suc fuel) cursor
        ≡ follow
            (take (suc n) rest)
            (if ltb (suc n) (length rest) then last_id (take (suc n) rest) else none)
            (λ c. walk s owned (suc n) fuel (some c))
  unfolding walk list_sessions page_of
  walk-step fuel cursor rest r =
      ap
        (λ rs.
          follow (page_of (suc n) rs).0 (page_of (suc n) rs).1
            (λ c. walk s owned (suc n) fuel (some c)))
        r

  walk-rest :
      (fuel : ℕ) (cursor : Option String) (before rest : List Session)
      → listed_rows s owned ≡ before ++ rest
      → rows_after cursor (listed_rows s owned) ≡ rest
      → length rest < fuel
      → walk s owned (suc n) fuel cursor ≡ rest
  walk-rest zero cursor before rest e r h = absurd (omega arith)
  walk-rest (suc fuel) cursor before rest e r h =
      walk-step fuel cursor rest r
      ∙ go rest (ltb (suc n) (length rest)) refl e h (λ c b m. walk-rest fuel c b m)
    where
      go :
          (rest : List Session) (b : Bool)
          → ltb (suc n) (length rest) ≡ b
          → listed_rows s owned ≡ before ++ rest
          → length rest < suc fuel
          → ((cursor : Option String) (before rest : List Session)
              → listed_rows s owned ≡ before ++ rest
              → rows_after cursor (listed_rows s owned) ≡ rest
              → length rest < fuel
              → walk s owned (suc n) fuel cursor ≡ rest)
          → follow
              (take (suc n) rest)
              (if b then last_id (take (suc n) rest) else none)
              (λ c. walk s owned (suc n) fuel (some c))
            ≡ rest
      go rest false b e h ih = take_all (suc n) rest (ground arith)
      go [] true b e h ih = absurd (ground arith)
      go (row ∷ rest) true b e h ih =
          let (c, l) = last_id-some row (take n rest) in
          let e' : listed_rows s owned ≡ (before ++ row ∷ take n rest) ++ drop n rest =
            e
            ∙ ap (λ l. before ++ row ∷ l) (sym (take-append-drop n rest))
            ∙ sym (append_assoc before (row ∷ take n rest) (drop n rest)) in
          rw l (
            ap (λ l. row ∷ (take n rest ++ l))
              (ih (some c) (before ++ row ∷ take n rest) (drop n rest) e'
                (rows_after-last_id before (take n rest) (drop n rest) row c e' l)
                (omega (arith, length-drop n rest)))
            ∙ ap (◌∷◌ row) (take-append-drop n rest))

  -- Where no two listed sessions share an id and none has an empty one, following the cursors from the start lists every
  -- session once and in order, whatever the size of a page above 0; one page more than there are sessions is enough.
  pub walk-list_sessions :
      walk s owned (suc n) (length (listed_rows s owned) + 1) none ≡ listed_rows s owned
  unfolding rows_after
  walk-list_sessions =
      rw
        (walk-rest (length (listed_rows s owned) + 1) none [] (listed_rows s owned) refl refl
          (omega arith))
        refl
