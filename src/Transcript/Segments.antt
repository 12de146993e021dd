-- ===== src/Transcript/Segments.antt =====
-- backend/app/transcript_projection.py: `build_run_transcript_items`. Its local variables are the
-- fields of `Builder`, and each local function is a function on them.
use pocage.Prelude.{
  ℕ, suc, ◌+◌, String, Bool, true, false, not, ◌&&◌, Option, none, some, List, [], ◌∷◌, ◌++◌,
  length, ◌==◌, leb, sort_by, if◌then◌else◌, get_or,
}
use pocage.Text.{concat, is_nonempty, or_else}
use pocage.Json.Defs.{Fields, end}
use pocage.Json.Access.{member, as_obj}
use pocage.Json.Dump.{show}
use pocage.Rows.{Status, RunEvent, PermissionRequest, text_le}
use pocage.Transcript.Defs.{
  Update, Step, SegmentKind, message, thought, steps, Item, assistant_segment, permission_request,
  PermissionItem, segment_status,
}
use pocage.Transcript.Updates.{step_from_update, visible_segment}

-- the arguments that name the run
pub record RunInfo : Type 0 where
  pub run_id : String
  pub session_id : String
  pub created_at : String
  pub updated_at : String
  pub status : Status

pub record Builder : Type 0 where
  pub items : List Item
  pub segment_index : ℕ
  pub segment_kind : Option SegmentKind
  pub segment_created_at : Option String
  pub segment_updated_at : String
  pub segment_content_parts : List String
  pub segment_steps : List Step
  pub pending_steps : List Step

unfoldable pub new_builder : RunInfo → Builder
new_builder run = record {
  items = [];
  segment_index = 0;
  segment_kind = none;
  segment_created_at = none;
  segment_updated_at = run.created_at;
  segment_content_parts = [];
  segment_steps = [];
  pending_steps = [];
}

abbrev pub is_empty_list {ℓ} : {A : Type ℓ} → List A → Bool
is_empty_list [] = true
is_empty_list (x ∷ xs) = false

unfoldable pub segment_id : RunInfo → ℕ → String
segment_id run index = concat (run.run_id ∷ ":segment:" ∷ show index ∷ [])

-- the variables of the segment at their start
unfoldable pub reset_segment : RunInfo → Builder → Builder
reset_segment run b = record b {
  segment_kind = none;
  segment_created_at = none;
  segment_updated_at = run.updated_at;
  segment_content_parts = [];
  segment_steps = [];
}

unfoldable pub emit_segment : RunInfo → Builder → SegmentKind → Builder
emit_segment run b kind = record b {
  items =
      b.items
      ++ assistant_segment (record {
        segment_id = segment_id run b.segment_index;
        session_id = run.session_id;
        run_id = run.run_id;
        segment_kind = kind;
        content = concat b.segment_content_parts;
        status = segment_status run.status;
        steps = b.segment_steps;
        created_at = or_else (get_or b.segment_created_at "") run.created_at;
        updated_at = b.segment_updated_at;
      })
        ∷ [];
  segment_index = b.segment_index + 1;
}

unfoldable pub flush_segment : RunInfo → Builder → Builder
flush_segment run b = elim b.segment_kind [
  | none ↦ reset_segment run b
  | some kind ↦
      if not (is_nonempty (concat b.segment_content_parts)) && is_empty_list b.segment_steps
      then reset_segment run b
      else reset_segment run (emit_segment run b kind)
]

abbrev first_created : List Step → String
first_created [] = ""
first_created (s ∷ rest) = s.created_at

abbrev last_created : List Step → String
last_created [] = ""
last_created (s ∷ []) = s.created_at
last_created (s ∷ t ∷ rest) = last_created (t ∷ rest)

unfoldable pub flush_pending_steps : RunInfo → Builder → Builder
flush_pending_steps run b = if is_empty_list b.pending_steps then b else record b {
  items =
      b.items
      ++ assistant_segment (record {
        segment_id = segment_id run b.segment_index;
        session_id = run.session_id;
        run_id = run.run_id;
        segment_kind = steps;
        content = "";
        status = segment_status run.status;
        steps = b.pending_steps;
        created_at = first_created b.pending_steps;
        updated_at = last_created b.pending_steps;
      })
        ∷ [];
  segment_index = b.segment_index + 1;
  pending_steps = [];
}

unfoldable pub start_segment : Builder → SegmentKind → String → Builder
start_segment b next_kind next_created_at = record b {
  segment_kind = some next_kind;
  segment_created_at = some next_created_at;
  segment_updated_at = next_created_at;
  segment_steps = b.pending_steps;
  pending_steps = [];
}

pub data Payload : Type 0 where
  session_update : RunEvent → Payload
  permission : PermissionRequest → Payload

-- an element of `ordered_entries`
pub record Entry : Type 0 where
  pub created_at : String
  pub index : ℕ
  pub payload : Payload

abbrev pub is_before : Entry → Entry → Bool
is_before a b =
    if a.created_at == b.created_at then leb a.index b.index else text_le a.created_at b.created_at

unfoldable pub update_entries : RunInfo → ℕ → List RunEvent → List Entry
update_entries run index [] = []
update_entries run index (event ∷ rest) =
    record {
      created_at = or_else event.created_at run.updated_at;
      index = index;
      payload = session_update event;
    }
    ∷ update_entries run (suc index) rest

unfoldable pub permission_entries : RunInfo → ℕ → List PermissionRequest → List Entry
permission_entries run index [] = []
permission_entries run index (request ∷ rest) =
    record {
      created_at = or_else request.created_at run.updated_at;
      index = index;
      payload = permission request;
    }
    ∷ permission_entries run (suc index) rest

unfoldable pub ordered_entries : RunInfo → List RunEvent → List PermissionRequest → List Entry
ordered_entries run session_updates permissions = sort_by is_before (
    update_entries run 0 session_updates
    ++ permission_entries run (length session_updates) permissions)

-- payload.get("payload", {}).get("update", {}), if it is a dict
unfoldable pub raw_update_of : RunEvent → Option Fields
raw_update_of event = elim (member event.payload "update") [ none ↦ some end | some v ↦ as_obj v ]

abbrev pub same_kind : Option SegmentKind → SegmentKind → Bool
same_kind (some message) message = true
same_kind (some thought) thought = true
same_kind (some steps) steps = true
same_kind (some message) thought = false
same_kind (some message) steps = false
same_kind (some thought) message = false
same_kind (some thought) steps = false
same_kind (some steps) message = false
same_kind (some steps) thought = false
same_kind none kind = false

abbrev pub one_step : Option Step → List Step
one_step none = []
one_step (some s) = s ∷ []

-- what the item of a request shows of it
unfoldable pub permission_item : PermissionRequest → PermissionItem
permission_item request = record {
  approval_id = request.approval_id;
  run_id = request.run_id;
  session_id = request.session_id;
  status = request.status;
  tool_call = request.tool_call;
  options = request.options;
  decision = request.decision;
  option_id = request.option_id;
  created_at = request.created_at;
  decided_at = request.decided_at;
}

unfoldable pub add_permission : RunInfo → Builder → PermissionRequest → Builder
add_permission run b request =
    let b' = flush_pending_steps run (flush_segment run b) in
    record b' { items = b'.items ++ permission_request (permission_item request) ∷ [] }

-- an update without visible text
unfoldable pub add_step : RunInfo → Builder → Option Step → Builder
add_step run b none = b
add_step run b (some s) =
    let b' = flush_segment run b in record b' { pending_steps = b'.pending_steps ++ s ∷ [] }

abbrev pub start_if_none : Builder → Option SegmentKind → SegmentKind → String → Builder
start_if_none b none kind created_at = start_segment b kind created_at
start_if_none b (some current) kind created_at = b

-- the open segment that a text of a kind goes to
unfoldable pub open_segment : RunInfo → Builder → SegmentKind → String → Builder
open_segment run b kind created_at =
    let flushed = if same_kind b.segment_kind kind then b else flush_segment run b in
    start_if_none flushed flushed.segment_kind kind created_at

-- an update with visible text
unfoldable pub add_text : RunInfo → Builder → SegmentKind → String → Option Step → String → Builder
add_text run b kind text step created_at =
    let started = open_segment run b kind created_at in
    record started {
      segment_content_parts = started.segment_content_parts ++ text ∷ [];
      segment_updated_at = created_at;
      segment_steps = started.segment_steps ++ one_step step;
    }

module _ (validate : Fields → Option Update) where
  unfoldable pub add_update : RunInfo → Builder → RunEvent → String → Builder
  add_update run b event created_at = elim (raw_update_of event) [
    | none ↦ b
    | some raw_update ↦
        let step = step_from_update (validate raw_update) raw_update event in
        elim (visible_segment (validate raw_update)) [
          | none ↦ add_step run b step
          | some (kind, text) ↦ add_text run b kind text step created_at
        ]
  ]

  -- the body of the loop
  unfoldable pub add_entry : RunInfo → Builder → Entry → Builder
  add_entry run b entry = elim entry.payload [
    | permission request ↦ add_permission run b request
    | session_update event ↦ add_update run b event entry.created_at
  ]

  unfoldable pub add_entries : RunInfo → Builder → List Entry → Builder
  add_entries run b [] = b
  add_entries run b (entry ∷ rest) = add_entries run (add_entry run b entry) rest

  unfoldable pub build_run_transcript_items :
      RunInfo → List RunEvent → List PermissionRequest → List Item
  build_run_transcript_items run session_updates permissions =
      (flush_pending_steps run (
        flush_segment run (
          add_entries run (new_builder run)
            (ordered_entries run session_updates permissions)))).items
