-- ===== src/ContextSearch/Matching.antt =====
-- backend/app/context_search.py: how a candidate is scored. `lower` stands for `str.lower`.
use Prim.Native.Char.{Char, code}
use pocage.Prelude.{ℕ, String, Bool, true, false, Option, none, some, same, if◌then◌else◌}
use pocage.Text.{strip, is_nonempty}
use pocage.Text.Search.{starts_with, contains, length_text}

-- needle[index:] after one character of the haystack
unfoldable pub advance : Char → String → String
advance c String.[] = String.[]
advance c (String.◌∷◌ d needle) = if same (code d) (code c) then needle else String.◌∷◌ d needle

-- the loop of `_is_subsequence` over the haystack, with what is left of the needle
unfoldable pub is_subsequence : (needle haystack : String) → Bool
is_subsequence needle String.[] = is_empty needle
  where
    is_empty : String → Bool
    is_empty String.[] = true
    is_empty (String.◌∷◌ d s) = false
is_subsequence needle (String.◌∷◌ c haystack) =
    let left = advance c needle in
    let rest = is_subsequence left haystack in if is_nonempty left then rest else true

-- the tuple that is compared: the rank of the match and the lengths of path and name
pub record Score : Type 0 where
  pub rank : ℕ
  pub path_length : ℕ
  pub name_length : ℕ

abbrev ranked : ℕ → String → String → Option Score
ranked rank name relative_path = some (record {
  rank = rank;
  path_length = length_text relative_path;
  name_length = length_text name;
})

-- `_score_candidate`
unfoldable pub score_candidate :
    (lower : String → String) → (query name relative_path : String) → Option Score
score_candidate lower query name relative_path =
    let normalized_query = lower (strip query) in
    let normalized_name = lower name in
    let normalized_path = lower relative_path in
    if is_nonempty normalized_query
    then (if starts_with normalized_name normalized_query
        then ranked 0 name relative_path
        else if contains normalized_name normalized_query
        then ranked 1 name relative_path
        else if starts_with normalized_path normalized_query
        then ranked 2 name relative_path
        else if contains normalized_path normalized_query
        then ranked 3 name relative_path
        else if is_subsequence normalized_query normalized_name
        then ranked 4 name relative_path
        else if is_subsequence normalized_query normalized_path
        then ranked 5 name relative_path
        else none)
    else none
