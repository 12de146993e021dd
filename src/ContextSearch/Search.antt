-- ===== src/ContextSearch/Search.antt =====
-- backend/app/context_search.py: `search_context_candidates` on a tree of folders, which is what
-- `os.walk` lists below the root. `lower` stands for `str.lower`, `as_uri` for the address of a path
-- below the root.
use pocage.Prelude.{
  ℕ, String, Bool, not, ◌&&◌, ◌||◌, Option, none, some, List, [], ◌∷◌, ◌++◌, ◌==◌, map, take, same,
  ltb, any, one_of, sort_by, if◌then◌else◌,
}
use pocage.Text.{strip, is_nonempty, concat}
use pocage.Rows.{text_le}
use pocage.ContextSearch.Matching.{Score, score_candidate}

pub record File : Type 0 where
  pub name : String
  pub is_symlink : Bool

mutual
  pub data Folder : Type 0 where
    folder : List File → Folders → Folder

  pub data Folders : Type 0 where
    no_folders : Folders
    subfolder : (name : String) → (is_symlink : Bool) → Folder → Folders → Folders

pub record ContextCandidate : Type 0 where
  pub kind : String
  pub name : String
  pub relative_path : String
  pub uri : String

pub record Scored : Type 0 where
  pub score : Score
  pub candidate : ContextCandidate

-- s.endswith(t)
unfoldable pub ends_with : (s t : String) → Bool
ends_with String.[] t = t == ""
ends_with (String.◌∷◌ c s) t = String.◌∷◌ c s == t || ends_with s t

abbrev ignored_dir_names : List String
ignored_dir_names =
    ".git" ∷ "node_modules" ∷ ".pixi" ∷ ".local" ∷ ".venv" ∷ "venv" ∷ "dist" ∷ "build"
    ∷ "__pycache__" ∷ "data" ∷ "logs" ∷ ".data" ∷ ".logs" ∷ []

abbrev ignored_file_suffixes : List String
ignored_file_suffixes = ".pyc" ∷ ".pyo" ∷ ".tsbuildinfo" ∷ []

unfoldable pub is_walked : (name : String) → (is_symlink : Bool) → Bool
unfolding ends_with
is_walked name is_symlink =
    not (one_of name ignored_dir_names) && not (ends_with name ".egg-info") && not is_symlink

unfoldable pub is_ignored_file : File → Bool
unfolding ends_with
is_ignored_file file = file.is_symlink || any (ends_with file.name) ignored_file_suffixes

-- a path below a folder; the root has the empty path
unfoldable pub join_path : String → String → String
join_path relative name = if is_nonempty relative then concat (relative ∷ "/" ∷ name ∷ []) else name

-- the comparison of `(score, relative_path)`
unfoldable pub comes_before : Scored → Scored → Bool
comes_before a b =
    if same a.score.rank b.score.rank
    then (if same a.score.path_length b.score.path_length
        then (if same a.score.name_length b.score.name_length
            then text_le a.candidate.relative_path b.candidate.relative_path
            else ltb a.score.name_length b.score.name_length)
        else ltb a.score.path_length b.score.path_length)
    else ltb a.score.rank b.score.rank

abbrev join_all : List (String × List Scored) → List Scored
join_all [] = []
join_all ((name, scored) ∷ rest) = scored ++ join_all rest

module _ (lower as_uri : String → String) (query : String) where
  -- a candidate, if it matches
  unfoldable pub scored_candidate : (kind name relative_path : String) → List Scored
  scored_candidate kind name relative_path = elim (score_candidate lower query name relative_path) [
    | none ↦ []
    | some score ↦
        record {
          score = score;
          candidate = record {
            kind = kind;
            name = name;
            relative_path = relative_path;
            uri = as_uri relative_path;
          };
        }
        ∷ []
  ]

  unfoldable pub file_candidates : (relative : String) → List File → List Scored
  unfolding scored_candidate is_ignored_file join_path
  file_candidates relative [] = []
  file_candidates relative (file ∷ files) =
      let rest = file_candidates relative files in
      if is_ignored_file file
      then rest
      else scored_candidate "file" file.name (join_path relative file.name) ++ rest

  unfoldable mutual
    unfolding file_candidates scored_candidate join_path is_walked

    -- the candidates in a folder: its files in order, then its folders in order
    pub in_folder : (relative : String) → Folder → List Scored
    in_folder relative (folder files folders) =
        file_candidates relative (sort_by (λ a b. text_le a.name b.name) files)
        ++ join_all (sort_by (λ a b. text_le a.0 b.0) (in_folders relative folders))

    -- each folder that is walked with what is found for it and in it
    pub in_folders : (relative : String) → Folders → List (String × List Scored)
    in_folders relative no_folders = []
    in_folders relative (subfolder name is_symlink f rest) =
        let path = join_path relative name in
        let found = scored_candidate "directory" name path ++ in_folder path f in
        let others = in_folders relative rest in
        if is_walked name is_symlink then (name, found) ∷ others else others

unfoldable pub search_context_candidates :
    (lower as_uri : String → String)
    → (root : Option Folder) → (query : String) → (limit : ℕ) → List ContextCandidate
unfolding in_folder
search_context_candidates lower as_uri none query limit = []
search_context_candidates lower as_uri (some root) query limit =
    let normalized_query = strip query in
    if is_nonempty normalized_query
    then map (λ s. s.candidate)
        (take limit (sort_by comes_before (in_folder lower as_uri normalized_query "" root)))
    else []
