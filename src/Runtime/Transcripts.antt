-- ===== src/Runtime/Transcripts.antt =====
-- backend/app/runtime_state.py: `cache_remote_session_transcript` and `build_session_transcript`.
use pocage.Prelude.{
  ℕ, String, Bool, ◌||◌, Option, none, some, List, [], ◌∷◌, ◌++◌, map, filter, ◌==◌, same, ltb,
  sort_by, if◌then◌else◌,
}
use pocage.Text.{or_else}
use pocage.Dict
use pocage.Dict.{Dict}
use pocage.Json.Defs.{Fields, arr, obj, to_items}
use pocage.Json.Size.{json_size}
use pocage.Rows.{text_le}
use pocage.Transcript.Defs.{Update, Item, assistant_segment, permission_request, user_item}
use pocage.Transcript.Segments.{RunInfo, is_empty_list, build_run_transcript_items}
use pocage.Transcript.Synced.{build_synced_session_transcript_items}
use pocage.Runtime.State.{RuntimeRun, RuntimeState}
use pocage.Runtime.Runs.{session_has_local_run}
use pocage.Runtime.RunEvents.{list_run_events}
use pocage.Runtime.Permissions.{requests_of}

-- the key `(created_at, run_id)`
unfoldable pub run_before : RuntimeRun → RuntimeRun → Bool
run_before a b =
    if a.created_at == b.created_at
    then text_le a.run_id b.run_id
    else text_le a.created_at b.created_at

unfoldable pub item_created_at : Item → String
item_created_at (assistant_segment s) = s.created_at
item_created_at (permission_request r) = r.created_at
item_created_at (user_item m) = m.created_at

unfoldable pub item_rank : Item → ℕ
item_rank (user_item m) = 0
item_rank (assistant_segment s) = 1
item_rank (permission_request r) = 1

unfoldable pub item_id : Item → String
item_id (user_item m) = or_else m.message_id m.run_id
item_id (assistant_segment s) = or_else s.segment_id s.run_id
item_id (permission_request r) = or_else r.approval_id r.run_id

-- the key of the last sort
unfoldable pub item_before : Item → Item → Bool
item_before a b =
    if item_created_at a == item_created_at b
    then (if same (item_rank a) (item_rank b)
        then text_le (item_id a) (item_id b)
        else ltb (item_rank a) (item_rank b))
    else text_le (item_created_at a) (item_created_at b)

unfoldable pub user_message_of : RuntimeRun → Item
user_message_of run = user_item (record {
  message_id = run.user_message_id;
  session_id = run.session_id;
  run_id = run.run_id;
  content = run.user_content;
  items = run.prompt_items;
  created_at = run.created_at;
  updated_at = run.updated_at;
})

unfoldable pub run_info : RuntimeRun → RunInfo
run_info run = record {
  run_id = run.run_id;
  session_id = run.session_id;
  created_at = run.created_at;
  updated_at = run.updated_at;
  status = run.status;
}

unfoldable pub remote_items : RuntimeState → String → List Item
remote_items s session_id = elim (Dict.get s.remote_transcript_items session_id) [
  | none ↦ []
  | some entry ↦ entry.items
]

module _ (validate : Fields → Option Update) where
  unfoldable pub run_items : RuntimeState → RuntimeRun → List Item
  run_items s run =
      user_message_of run
      ∷ build_run_transcript_items validate (run_info run)
          (filter (λ event. event.event_type == "run.session_update")
            (list_run_events s run.run_id))
          (sort_by (λ a b. text_le a.created_at b.created_at)
            (Dict.values (requests_of s run.run_id)))

  unfoldable pub all_run_items : RuntimeState → List RuntimeRun → List Item
  all_run_items s [] = []
  all_run_items s (run ∷ runs) = run_items s run ++ all_run_items s runs

  unfoldable pub build_session_transcript : RuntimeState → String → List Item
  build_session_transcript s session_id = sort_by item_before (
      remote_items s session_id
      ++ all_run_items s
          (sort_by run_before (filter (λ run. run.session_id == session_id) (Dict.values s.runs))))

  -- `stamp` and `anchor` are as in `build_synced_session_transcript_items`
  unfoldable pub cache_remote_session_transcript :
      (ℕ → String)
      → RuntimeState
      → String
      → Option String
      → (anchor : ℕ) → List Fields
      → (now : String) → RuntimeState
  cache_remote_session_transcript stamp s session_id remote_updated_at anchor session_updates now =
      if is_empty_list session_updates || session_has_local_run s session_id then s else record s {
        remote_transcript_items = Dict.put s.remote_transcript_items session_id (record {
          items =
              build_synced_session_transcript_items validate stamp session_id anchor
                session_updates;
          cached_at = now;
          payload_bytes = json_size (arr (to_items (map obj session_updates)));
          remote_updated_at = remote_updated_at;
        });
      }
