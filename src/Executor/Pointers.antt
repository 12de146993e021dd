-- ===== src/Executor/Pointers.antt =====
-- backend/app/executor_manager.py: the table of session pointers. `hash_secret` is the one of
-- security.py, and `seen_at` stands for `_parse_remote_timestamp`, whose stamps are valid.
use pocage.Prelude.{
  String, not, ◌&&◌, Option, none, some, List, [], ◌∷◌, filter, one_of, get_or, if◌then◌else◌,
}
use pocage.Text.{strip, is_nonempty}
use pocage.Dict
use pocage.Dict.{Dict}
use pocage.Executor.Answers.{RemoteSessionItem, SessionPointer}
use pocage.Executor.Defs.{ExecutorManager}

unfoldable pub nonblank : Option String → Option String
nonblank none = none
nonblank (some s) = if is_nonempty (strip s) then some (strip s) else none

-- the ids that a page names
unfoldable pub page_ids : List RemoteSessionItem → List String
page_ids [] = []
page_ids (item ∷ items) =
    let rest = page_ids items in
    if is_nonempty (strip item.session_id) then strip item.session_id ∷ rest else rest

module _ (hash_secret : String → String) (seen_at : Option String → String) where
  abbrev hash_of : Option String → Option String
  hash_of none = none
  hash_of (some s) = if is_nonempty (strip s) then some (hash_secret s) else none

  unfoldable pub pointer_row :
      (title cwd : Option String)
      → (status : String) → (updated_at : Option String) → SessionPointer
  unfolding nonblank
  pointer_row title cwd status updated_at = record {
    title_hint = nonblank title;
    cwd_hash = hash_of cwd;
    status = status;
    last_seen_at = seen_at updated_at;
  }

  -- `_upsert_session_pointer`
  unfoldable pub upsert_session_pointer :
      ExecutorManager
      → (agent_instance_id remote_session_id : String) → (title cwd : Option String)
      → (status : String) → (updated_at : Option String) → ExecutorManager
  unfolding pointer_row
  upsert_session_pointer m agent_instance_id remote_session_id title cwd status updated_at =
      record m {
        session_pointers = elim m.session_pointers [
          | none ↦ none
          | some pointers ↦
              (let rows = get_or (Dict.get pointers agent_instance_id) [] in
                some (
                  Dict.put pointers agent_instance_id
                    (Dict.put rows remote_session_id (pointer_row title cwd status updated_at))))
        ];
      }

  -- the second loop of `_replace_session_pointers`. A row that is added twice breaks the unique
  -- constraint of the table, which is `none`; `existing` is what was there at first.
  unfoldable pub write_rows :
      (existing : List String)
      → Dict SessionPointer
      → List RemoteSessionItem
      → Option (Dict SessionPointer)
  unfolding pointer_row
  write_rows existing rows [] = some rows
  write_rows existing rows (item ∷ items) =
      let id = strip item.session_id in
      let row = pointer_row (some item.title) (some item.cwd) "idle" (some item.updated_at) in
      let skipped = write_rows existing rows items in
      let written = write_rows existing (Dict.put rows id row) items in
      if not (is_nonempty id)
      then skipped
      else if Dict.has rows id && not (one_of id existing)
      then none
      else written

  unfoldable pub replace_rows :
      Dict SessionPointer → List RemoteSessionItem → Option (Dict SessionPointer)
  replace_rows rows items =
      let kept = filter (λ e. one_of e.0 (page_ids items)) rows in
      write_rows (Dict.keys kept) kept items

  -- `_replace_session_pointers`, as the table that it leaves
  unfoldable pub replace_session_pointers :
      Option (Dict (Dict SessionPointer))
      → (agent_instance_id : String) → List RemoteSessionItem
      → Option (Option (Dict (Dict SessionPointer)))
  replace_session_pointers none agent_instance_id items = some none
  replace_session_pointers (some pointers) agent_instance_id items =
      elim (replace_rows (get_or (Dict.get pointers agent_instance_id) []) items) [
        | none ↦ none
        | some rows ↦ some (some (Dict.put pointers agent_instance_id rows))
      ]
