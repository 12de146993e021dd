-- ===== src/Transcript/Examples.antt =====
-- backend/app/transcript_projection.py: the theorems at a run with two messages, an unknown update and a
-- permission request between them.
use pocage.Prelude.{String, ◌≡◌, Option, none, some, List, [], ◌∷◌, length}
use pocage.Json.Defs.{Fields, str, obj, to_fields}
use pocage.Json.Access.{get, nonempty_str}
use pocage.Rows.{running, pending, RunEvent, PermissionRequest}
use pocage.Transcript.Defs.{Update, agent_message, text, message}
use pocage.Transcript.Segments.{RunInfo, ordered_entries, build_run_transcript_items}
use pocage.Transcript.Contents.{
  flat, texts, steps_in, request_in, id_in, numbered, entry_texts, entry_steps, entry_request,
}
use pocage.Transcript.Conservation.{
  texts-build_run_transcript_items, steps-build_run_transcript_items,
  requests-build_run_transcript_items, ids-build_run_transcript_items,
}

-- a validation that knows messages only
abbrev validate : Fields → Option Update
validate raw_update = elim (nonempty_str (get raw_update "text")) [
  | none ↦ none
  | some t ↦ some (agent_message (text t))
]

abbrev run : RunInfo
run = record {
  run_id = "r";
  session_id = "s";
  created_at = "1";
  updated_at = "9";
  status = running;
}

abbrev event : String → String → String → RunEvent
event id key value = record {
  event_id = id;
  run_id = "r";
  seq = 1;
  event_type = "run.session_update";
  payload = to_fields (("update", obj (to_fields ((key, str value) ∷ []))) ∷ []);
  created_at = id;
}

abbrev events : List RunEvent
events =
    event "2" "text" "hello" ∷ event "3" "sessionUpdate" "new_kind" ∷ event "5" "text" "bye" ∷ []

abbrev requests : List PermissionRequest
requests =
    record {
      approval_id = "a";
      run_id = "r";
      executor_id = none;
      session_id = "s";
      status = pending;
      tool_call = to_fields [];
      options = [];
      decision = none;
      option_id = none;
      created_at = "4";
      decided_at = none;
    }
    ∷ []

texts-build_run_transcript_items_example :
    texts message (build_run_transcript_items validate run events requests)
    ≡ entry_texts validate message (ordered_entries run events requests)
texts-build_run_transcript_items_example =
    texts-build_run_transcript_items validate run events requests message

steps-build_run_transcript_items_example :
    flat steps_in (build_run_transcript_items validate run events requests)
    ≡ flat (entry_steps validate) (ordered_entries run events requests)
steps-build_run_transcript_items_example =
    steps-build_run_transcript_items validate run events requests

requests-build_run_transcript_items_example :
    flat request_in (build_run_transcript_items validate run events requests)
    ≡ flat entry_request (ordered_entries run events requests)
requests-build_run_transcript_items_example =
    requests-build_run_transcript_items validate run events requests

ids-build_run_transcript_items_example :
    let ids = flat id_in (build_run_transcript_items validate run events requests) in
    ids ≡ numbered run (length ids)
ids-build_run_transcript_items_example = ids-build_run_transcript_items validate run events requests
