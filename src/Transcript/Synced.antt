-- ===== src/Transcript/Synced.antt =====
-- backend/app/transcript_projection.py: `build_synced_session_transcript_items`. `stamp` stands for
-- `isoformat` of a moment in microseconds, and `anchor` is what `_parse_timestamp` makes of
-- `remote_updated_at`; a moment is far above zero, so that `-` does not stop there.
use pocage.Prelude.{
  ℕ, suc, ◌+◌, ◌-◌, ◌*◌, String, Option, none, some, List, [], ◌∷◌, ◌++◌, map, length,
  if◌then◌else◌,
}
use pocage.Text.{concat}
use pocage.Json.Defs.{Fields, obj, to_fields}
use pocage.Json.Dump.{show}
use pocage.Rows.{completed, RunEvent}
use pocage.Transcript.Defs.{Content, Update, user_message, content_to_text, Item, user_item}
use pocage.Transcript.Segments.{raw_update_of, is_empty_list, build_run_transcript_items}

-- one element of `_build_synthetic_update_events`
unfoldable pub synthetic_event : (ℕ → String) → String → ℕ → ℕ → Fields → RunEvent
synthetic_event stamp session_id start_at index update = record {
  event_id = concat ("remote-" ∷ session_id ∷ "-update-" ∷ show index ∷ []);
  run_id = concat ("remote-sync:" ∷ session_id ∷ []);
  seq = index + 1;
  event_type = "run.session_update";
  payload = to_fields (("update", obj update) ∷ []);
  created_at = stamp (start_at + index * 2 * 1000);
}

unfoldable pub synthetic_events_from : (ℕ → String) → String → ℕ → ℕ → List Fields → List RunEvent
synthetic_events_from stamp session_id start_at index [] = []
synthetic_events_from stamp session_id start_at index (update ∷ rest) =
    synthetic_event stamp session_id start_at index update
    ∷ synthetic_events_from stamp session_id start_at (suc index) rest

-- `_build_synthetic_update_events`
unfoldable pub build_synthetic_update_events :
    (ℕ → String) → String → ℕ → List Fields → List RunEvent
build_synthetic_update_events stamp session_id anchor session_updates =
    synthetic_events_from stamp session_id (anchor - (length session_updates * 2 + 10) * 1000) 0
      session_updates

-- the local variables of `build_synced_session_transcript_items`
pub record Turns : Type 0 where
  pub turns : List Item
  pub turn_index : ℕ
  pub current_user_chunks : List (RunEvent × Content)
  pub current_updates : List RunEvent

abbrev first_stamp : List RunEvent → String → String
first_stamp [] d = d
first_stamp (event ∷ rest) d = event.created_at

abbrev last_stamp : List RunEvent → String → String
last_stamp [] d = d
last_stamp (event ∷ rest) d = last_stamp rest event.created_at

abbrev chunk_events : List (RunEvent × Content) → List RunEvent
chunk_events = map (λ c. c.0)

abbrev chunk_texts : List (RunEvent × Content) → List String
chunk_texts = map (λ c. content_to_text c.1)

unfoldable pub user_turn : String → String → List (RunEvent × Content) → List Item
user_turn run_id session_id [] = []
user_turn run_id session_id (chunk ∷ chunks) =
    user_item (record {
      message_id = concat (run_id ∷ ":user" ∷ []);
      session_id = session_id;
      run_id = run_id;
      content = concat (chunk_texts (chunk ∷ chunks));
      items = [];
      created_at = chunk.0.created_at;
      updated_at = last_stamp (chunk_events (chunk ∷ chunks)) "";
    })
    ∷ []

-- event["run_id"] = run_id
abbrev with_run_id : String → RunEvent → RunEvent
with_run_id run_id event = record event { run_id = run_id }

module _ (validate : Fields → Option Update) where
  unfoldable pub update_turn :
      String → String → List (RunEvent × Content) → List RunEvent → List Item
  update_turn run_id session_id chunks [] = []
  update_turn run_id session_id chunks (event ∷ updates) =
      build_run_transcript_items validate
        (record {
          run_id = run_id;
          session_id = session_id;
          created_at = first_stamp (chunk_events chunks) event.created_at;
          updated_at = last_stamp (event ∷ updates) "";
          status = completed;
        })
        (map (with_run_id run_id) (event ∷ updates)) []

  -- `flush_turn`; with nothing held both parts are empty
  unfoldable pub flush_turn : String → Turns → Turns
  flush_turn session_id s =
      let run_id = concat ("remote-sync:" ∷ session_id ∷ ":" ∷ show s.turn_index ∷ []) in
      record s {
        turns =
            s.turns
            ++ (user_turn run_id session_id s.current_user_chunks
                ++ update_turn run_id session_id s.current_user_chunks s.current_updates);
      }

  -- a chunk of a user's message: behind updates it starts the next turn
  unfoldable pub add_user_chunk : String → Turns → RunEvent → Content → Turns
  add_user_chunk session_id s event content =
      if is_empty_list s.current_updates
      then record s { current_user_chunks = s.current_user_chunks ++ (event, content) ∷ [] }
      else (let s' = flush_turn session_id s in
          record s' {
            turn_index = s.turn_index + 1;
            current_user_chunks = (event, content) ∷ [];
            current_updates = [];
          })

  -- the content of an update that is a user's message
  unfoldable pub user_content : RunEvent → Option Content
  user_content event = elim (raw_update_of event) [
    | none ↦ none
    | some raw_update ↦ chunk_of (validate raw_update)
  ]
    where
      chunk_of : Option Update → Option Content
      chunk_of (some (user_message content)) = some content
      chunk_of u = none

  unfoldable pub add_event : String → Turns → RunEvent → Turns
  add_event session_id s event = elim (user_content event) [
    | none ↦ record s { current_updates = s.current_updates ++ event ∷ [] }
    | some content ↦ add_user_chunk session_id s event content
  ]

  unfoldable pub add_events : String → Turns → List RunEvent → Turns
  add_events session_id s [] = s
  add_events session_id s (event ∷ rest) = add_events session_id (add_event session_id s event) rest

  unfoldable pub build_synced_session_transcript_items :
      (ℕ → String) → String → ℕ → List Fields → List Item
  build_synced_session_transcript_items stamp session_id anchor session_updates =
      (flush_turn session_id (
        add_events session_id
          (record { turns = []; turn_index = 0; current_user_chunks = []; current_updates = [] })
          (build_synthetic_update_events stamp session_id anchor session_updates))).turns
