-- ===== src/ContextSearch/Examples.antt =====
-- backend/app/context_search.py: the theorems with a folder of three files, of which one is a link,
-- and a folder that is not walked.
use pocage.Prelude.{
  String, ◌≡◌, ◌⊎◌, ◌↔◌, refl, Bool, true, false, some, List, [], ◌∷◌, map, is_some,
}
use pocage.Text.{strip, is_nonempty, concat}
use pocage.Text.Search.{starts_with, contains}
use pocage.ContextSearch.Matching.{score_candidate, is_subsequence, advance}
use pocage.ContextSearch.Matches.{IsSubsequence, score_candidate-matches}
use pocage.ContextSearch.Search.{
  comes_before, File, Folder, folder, no_folders, subfolder, Scored, in_folder,
  search_context_candidates,
}
use pocage.ContextSearch.Ranking.{IsBest, search_context_candidates-IsBest}

abbrev lower : String → String
lower s = s

abbrev as_uri : String → String
as_uri s = s

score_candidate-matches_example :
    (is_some (score_candidate lower " mpy " "main.py" "app/main.py") ≡ true) ↔ (
      (is_nonempty (strip " mpy ") ≡ true)
      × (IsSubsequence (strip " mpy ") "main.py" ⊎ IsSubsequence (strip " mpy ") "app/main.py"))
score_candidate-matches_example = score_candidate-matches lower " mpy " "main.py" "app/main.py"

abbrev file : String → Bool → File
file name is_symlink = record { name = name; is_symlink = is_symlink }

abbrev root : Folder
root = folder (file "main.py" false ∷ file "alias.py" true ∷ file "app.pyc" false ∷ []) (
    subfolder "app" false (folder (file "map.py" false ∷ []) no_folders)
      (subfolder ".git" false (folder (file "map.py" false ∷ []) no_folders) no_folders))

search_context_candidates-IsBest_example :
    (given : List Scored) × (left_out : List Scored) × IsBest
      (in_folder lower as_uri (strip " ap ") "" root)
      1
      given
      left_out
    × (search_context_candidates lower as_uri (some root) " ap " 1 ≡ map (λ s. s.candidate) given)
unfolding strip
search_context_candidates-IsBest_example =
    search_context_candidates-IsBest lower as_uri root " ap " 1 refl

three_found :
    map (λ c. c.relative_path) (search_context_candidates lower as_uri (some root) " ap " 5)
    ≡ "app" ∷ "app/map.py" ∷ "main.py" ∷ []
unfolding search_context_candidates strip score_candidate starts_with contains is_subsequence
    advance comes_before concat
three_found = refl
