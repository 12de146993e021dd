-- ===== src/ContextSearch/Matches.antt =====
-- backend/app/context_search.py: which candidates match a query.
use Prim.Native.Char.{Char, code}
use pocage.Prelude.{
  ℕ, String, ◌≡◌, ◌⊎◌, inl, inr, ◌↔◌, refl, sym, ◌∙◌, Bool, true, false, ◌&&◌, ◌||◌, same, is_some,
  arith, Bool-cases,
}
use pocage.Text.{strip, is_nonempty}
use pocage.Text.Search.{starts_with, contains}
use pocage.ContextSearch.Matching.{advance, is_subsequence, score_candidate}

-- The characters of the needle stand in the haystack in their order, others between them or not.
unfoldable pub IsSubsequence : (needle haystack : String) → Type 0
IsSubsequence String.[] haystack = Unit
IsSubsequence (String.◌∷◌ d needle) String.[] = ⊥
IsSubsequence (String.◌∷◌ d needle) (String.◌∷◌ c haystack) =
    ((code d ≡ code c) × IsSubsequence needle haystack)
    ⊎ IsSubsequence (String.◌∷◌ d needle) haystack

-- Without its first character a subsequence is one.
tail-IsSubsequence :
    (d : Char) (needle haystack : String)
    → IsSubsequence (String.◌∷◌ d needle) haystack
    → IsSubsequence needle haystack
unfolding IsSubsequence
tail-IsSubsequence d String.[] haystack h = tt
tail-IsSubsequence d (String.◌∷◌ e needle) String.[] h = absurd h
tail-IsSubsequence d (String.◌∷◌ e needle) (String.◌∷◌ c haystack) (inl (same_code, rest)) =
    inr rest
tail-IsSubsequence d (String.◌∷◌ e needle) (String.◌∷◌ c haystack) (inr rest) =
    inr (tail-IsSubsequence d (String.◌∷◌ e needle) haystack rest)

empty-IsSubsequence :
    (needle haystack : String) → is_nonempty needle ≡ false → IsSubsequence needle haystack
unfolding IsSubsequence
empty-IsSubsequence String.[] haystack h = tt
empty-IsSubsequence (String.◌∷◌ d needle) haystack h = cc

differ : {m n : ℕ} → m ≡ n → same m n ≡ false → ⊥
differ e h = ground arith

-- One character of the haystack.
advance-IsSubsequence :
    (c : Char) (needle haystack : String)
    → IsSubsequence needle (String.◌∷◌ c haystack) ↔ IsSubsequence (advance c needle) haystack
unfolding IsSubsequence advance
advance-IsSubsequence c String.[] haystack = (λ h. tt, λ h. tt)
advance-IsSubsequence c (String.◌∷◌ d needle) haystack =
    elim (Bool-cases (same (code d) (code c))) [
      | inl e ↦ rw e (
        λ h. elim h [ inl here ↦ here.1 | inr rest ↦ tail-IsSubsequence d needle haystack rest ],
        λ rest. inl (ground arith, rest),
      )
      | inr e ↦
          rw e (
            λ h. elim h [ inl here ↦ absurd (differ here.0 e) | inr rest ↦ rest ],
            λ rest. inr rest,
          )
    ]

-- What the loop does with one character.
is_subsequence-cons :
    (needle : String) (c : Char) (haystack : String)
    → ((is_subsequence (advance c needle) haystack ≡ true)
        ↔ IsSubsequence (advance c needle) haystack)
    → (is_subsequence needle (String.◌∷◌ c haystack) ≡ true)
      ↔ IsSubsequence needle (String.◌∷◌ c haystack)
unfolding is_subsequence
is_subsequence-cons needle c haystack ih =
    let on = advance-IsSubsequence c needle haystack in
    elim (Bool-cases (is_nonempty (advance c needle))) [
      | inl e ↦ rw (is_subsequence, e) (λ h. on.1 (ih.0 h), λ s. ih.1 (on.0 s))
      | inr e ↦
          rw (is_subsequence, e)
            (λ h. on.1 (empty-IsSubsequence (advance c needle) haystack e), λ s. refl)
    ]

-- The loop finds a subsequence where there is one: taking each character at its first place is enough.
is_subsequence_iff :
    (needle haystack : String)
    → (is_subsequence needle haystack ≡ true) ↔ IsSubsequence needle haystack
unfolding is_subsequence IsSubsequence
is_subsequence_iff String.[] String.[] = (λ h. tt, λ h. refl)
is_subsequence_iff (String.◌∷◌ d needle) String.[] = (λ h. cc, λ h. absurd h)
is_subsequence_iff needle (String.◌∷◌ c haystack) =
    is_subsequence-cons needle c haystack (is_subsequence_iff (advance c needle) haystack)

starts_with-IsSubsequence : (s t : String) → starts_with s t ≡ true → IsSubsequence t s
unfolding starts_with IsSubsequence
starts_with-IsSubsequence s String.[] h = tt
starts_with-IsSubsequence String.[] (String.◌∷◌ d t) h = cc
starts_with-IsSubsequence (String.◌∷◌ c s) (String.◌∷◌ d t) h =
    inl (ground arith, starts_with-IsSubsequence s t (ground arith))

later-IsSubsequence :
    (c : Char) (t s : String) → IsSubsequence t s → IsSubsequence t (String.◌∷◌ c s)
unfolding IsSubsequence
later-IsSubsequence c String.[] s h = tt
later-IsSubsequence c (String.◌∷◌ d t) s h = inr h

contains-IsSubsequence : (s t : String) → contains s t ≡ true → IsSubsequence t s
unfolding contains
contains-IsSubsequence String.[] t h = starts_with-IsSubsequence "" t h
contains-IsSubsequence (String.◌∷◌ c s) t h = elim (Bool-cases (starts_with (String.◌∷◌ c s) t)) [
  | inl e ↦ starts_with-IsSubsequence (String.◌∷◌ c s) t e
  | inr e ↦ later-IsSubsequence c t s (contains-IsSubsequence s t (rw e at h))
]

starts_with-is_subsequence : (s t : String) → starts_with s t ≡ true → is_subsequence t s ≡ true
starts_with-is_subsequence s t h = (is_subsequence_iff t s).1 (starts_with-IsSubsequence s t h)

contains-is_subsequence : (s t : String) → contains s t ≡ true → is_subsequence t s ≡ true
contains-is_subsequence s t h = (is_subsequence_iff t s).1 (contains-IsSubsequence s t h)

-- The four ranks before the last two find nothing that the last two do not find.
is_some-score_candidate :
    (lower : String → String) (query name relative_path : String)
    → let q = lower (strip query) in
      is_some (score_candidate lower query name relative_path)
      ≡ is_nonempty q && (is_subsequence q (lower name) || is_subsequence q (lower relative_path))
unfolding score_candidate
is_some-score_candidate lower query name relative_path =
    let q = lower (strip query) in
    let n = lower name in
    let p = lower relative_path in
    ground (
      arith,
      starts_with-is_subsequence n q,
      contains-is_subsequence n q,
      starts_with-is_subsequence p q,
      contains-is_subsequence p q,
    )

either : (a b c : Bool) → a && (b || c) ≡ true → (a ≡ true) × ((b ≡ true) ⊎ (c ≡ true))
either true true c h = (refl, inl refl)
either true false c h = (refl, inr h)
either false b c h = cc

-- A candidate is scored where the stripped and lowered query is not empty and its characters stand in
-- the lowered name, or in the lowered path, in their order; otherwise it is left out.
pub score_candidate-matches :
    (lower : String → String) (query name relative_path : String)
    → (is_some (score_candidate lower query name relative_path) ≡ true) ↔ (
        (is_nonempty (lower (strip query)) ≡ true)
        × (IsSubsequence (lower (strip query)) (lower name)
            ⊎ IsSubsequence (lower (strip query)) (lower relative_path)))
score_candidate-matches lower query name relative_path =
    let q = lower (strip query) in
    let in_name = is_subsequence_iff q (lower name) in
    let in_path = is_subsequence_iff q (lower relative_path) in
    let whole = is_some-score_candidate lower query name relative_path in
    (
      λ h.
          let (named, found) = either _ _ _ (sym whole ∙ h) in
          (named, elim found [ inl e ↦ inl (in_name.0 e) | inr e ↦ inr (in_path.0 e) ]),
      λ (named, found). whole ∙ elim found [
        | inl s ↦ rw (named, in_name.1 s) refl
        | inr s ↦ rw (named, in_path.1 s) (ground arith)
      ],
    )
