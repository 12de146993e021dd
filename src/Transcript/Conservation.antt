-- ===== src/Transcript/Conservation.antt =====
-- backend/app/transcript_projection.py: the transcript of a run against its entries.
use Prim.Native.String.{◌++◌ as append}
use text.Mathlib.TextLemmas.{append_assoc as text_assoc, append-nil as text_nil, nil-append}
use pocage.Prelude.{
  ℕ, String, ◌≡◌, refl, sym, ap, ◌∙◌, Option, none, List, [], ◌∷◌, ◌++◌, append_assoc, append-nil,
  Option-cases, length, inl, inr,
}
use pocage.Json.Defs.{Fields}
use pocage.Rows.{RunEvent, PermissionRequest}
use pocage.Transcript.Defs.{PermissionItem, Update, Step, SegmentKind}
use pocage.Transcript.Updates.{step_from_update, visible_segment}
use pocage.Transcript.Segments.{
  RunInfo, Builder, new_builder, Entry, Payload, session_update, permission, raw_update_of,
  flush_segment, flush_pending_steps, add_update, add_entry, add_entries, ordered_entries,
  build_run_transcript_items,
}
use pocage.Transcript.Contents.{
  flat, texts, steps_in, request_in, id_in, numbered, length-numbered, event_text, event_steps,
  entry_text, entry_texts, entry_steps, entry_request,
}
use pocage.Transcript.Sums.{
  Sums, flush_segment-none, flush_pending_steps-empty, flush_segment-Sums, flush_pending_steps-Sums,
}
use pocage.Transcript.Additions.{
  flush_pending_steps-none, add_permission-Sums, add_step-Sums, add_text-Sums,
}

-- The sums are stated up to the texts of each kind.
same_texts :
    {run : RunInfo} {b : Builder} {t u : SegmentKind → String} {ss : List Step}
    {ps : List PermissionItem}
    → ((k : SegmentKind) → t k ≡ u k)
    → Sums run b t ss ps
    → Sums run b u ss ps
same_texts h s = record {
  tidy = s.tidy;
  text = λ k. s.text k ∙ h k;
  steps = s.steps;
  requests = s.requests;
  ids = s.ids;
}

module _ (validate : Fields → Option Update) {t : SegmentKind → String} {ss : List Step}
    {ps : List PermissionItem} (run : RunInfo) where
  add_update-Sums :
      (b : Builder) (event : RunEvent) (created_at : String)
      → Sums run b t ss ps
      → Sums run
          (add_update validate run b event created_at)
          (λ k. append (t k) (event_text validate k event))
          (ss ++ event_steps validate event)
          ps
  unfolding add_update
  add_update-Sums b event created_at s = elim (Option-cases (raw_update_of event)) [
    | inl e ↦
        rw (e, add_update, event_steps, append-nil ss)
          (same_texts (λ k. rw (e, event_text) (sym (text_nil (t k)))) s)
    | inr (raw, e) ↦ elim (Option-cases (visible_segment (validate raw))) [
      | inl v ↦
          rw (e, add_update, v, event_steps)
            (same_texts (λ k. rw (e, event_text, v) (sym (text_nil (t k))))
              (add_step-Sums run b (step_from_update (validate raw) raw event) s))
      | inr ((kind, text), v) ↦
          rw (e, add_update, v, event_steps)
            (same_texts (λ k. rw (e, event_text, v) refl)
              (add_text-Sums run b kind text (step_from_update (validate raw) raw event) created_at
                s))
    ]
  ]

  add_payload-Sums :
      (b : Builder) (created_at : String) (index : ℕ) (payload : Payload)
      → Sums run b t ss ps
      → let entry : Entry = record { created_at = created_at; index = index; payload = payload } in
        Sums run
          (add_entry validate run b entry)
          (λ k. append (t k) (entry_text validate k entry))
          (ss ++ entry_steps validate entry)
          (ps ++ entry_request entry)
  unfolding add_entry
  add_payload-Sums b created_at index (permission request) s =
      rw (append-nil ss)
        (same_texts (λ k. sym (text_nil (t k))) (add_permission-Sums run b request s))
  add_payload-Sums b created_at index (session_update event) s =
      rw (append-nil ps) (add_update-Sums b event created_at s)

module _ (validate : Fields → Option Update) (run : RunInfo) where
  add_entries-Sums :
      (b : Builder) (entries : List Entry) {t : SegmentKind → String} {ss : List Step}
      {ps : List PermissionItem}
      → Sums run b t ss ps
      → Sums run
          (add_entries validate run b entries)
          (λ k. append (t k) (entry_texts validate k entries))
          (ss ++ flat (entry_steps validate) entries)
          (ps ++ flat entry_request entries)
  unfolding add_entries
  add_entries-Sums b [] {t} {ss} {ps} s =
      rw (append-nil ss, append-nil ps) (same_texts (λ k. sym (text_nil (t k))) s)
  add_entries-Sums b (entry ∷ rest) {t} {ss} {ps} s =
      let r =
        add_entries-Sums (add_entry validate run b entry) rest
          (add_payload-Sums validate run b entry.created_at entry.index entry.payload s) in
      rw⁻¹
        (
          append_assoc ss (entry_steps validate entry) (flat (entry_steps validate) rest),
          append_assoc ps (entry_request entry) (flat entry_request rest),
        )
        (same_texts
          (λ k. text_assoc (t k) (entry_text validate k entry) (entry_texts validate k rest)) r)

  new-Sums : Sums run (new_builder run) (λ k. "") [] []
  unfolding new_builder
  new-Sums = record {
    tidy = (refl, refl);
    text = λ k. refl;
    steps = refl;
    requests = refl;
    ids = refl;
  }

  abbrev finished : List RunEvent → List PermissionRequest → Builder
  finished session_updates permissions = flush_pending_steps run (
      flush_segment run (
        add_entries validate run (new_builder run)
          (ordered_entries run session_updates permissions)))

  module _ (session_updates : List RunEvent) (permissions : List PermissionRequest) where
    finished-Sums :
        let entries = ordered_entries run session_updates permissions in
        Sums run
          (finished session_updates permissions)
          (λ k. entry_texts validate k entries)
          (flat (entry_steps validate) entries)
          (flat entry_request entries)
    finished-Sums =
        let entries = ordered_entries run session_updates permissions in
        flush_pending_steps-Sums run
          (flush_segment run (add_entries validate run (new_builder run) entries))
          (flush_segment-none run _)
          (flush_segment-Sums run (add_entries validate run (new_builder run) entries) (
            same_texts (λ k. nil-append (entry_texts validate k entries))
              (add_entries-Sums (new_builder run) entries new-Sums)))

    finished-none : (finished session_updates permissions).segment_kind ≡ none
    finished-none =
        flush_pending_steps-none run
          (flush_segment run (
            add_entries validate run (new_builder run)
              (ordered_entries run session_updates permissions)))
          (flush_segment-none run _)

    -- The segments of a kind hold together the text of that kind that the entries show, in the order of the entries.
    pub texts-build_run_transcript_items :
        (kind : SegmentKind)
        → texts kind (build_run_transcript_items validate run session_updates permissions)
          ≡ entry_texts validate kind (ordered_entries run session_updates permissions)
    unfolding build_run_transcript_items
    texts-build_run_transcript_items kind =
        sym (text_nil _) ∙ (rw finished-none at (finished-Sums.text kind))

    -- The segments hold together the steps that the entries add, each once and in the order of the entries.
    pub steps-build_run_transcript_items :
        flat steps_in (build_run_transcript_items validate run session_updates permissions)
        ≡ flat (entry_steps validate) (ordered_entries run session_updates permissions)
    unfolding build_run_transcript_items
    steps-build_run_transcript_items =
        sym (append-nil _)
        ∙ (rw ((rw finished-none at (finished-Sums.tidy)).1, flush_pending_steps-empty run _) at
            (finished-Sums.steps))

    -- The items of permission requests are those of the entries, each once and in the order of the entries.
    pub requests-build_run_transcript_items :
        flat request_in (build_run_transcript_items validate run session_updates permissions)
        ≡ flat entry_request (ordered_entries run session_updates permissions)
    unfolding build_run_transcript_items
    requests-build_run_transcript_items = finished-Sums.requests

    -- The segments are numbered 0, 1, 2 and so on, in the order of the items.
    pub ids-build_run_transcript_items :
        let ids =
          flat id_in (build_run_transcript_items validate run session_updates permissions) in
        ids ≡ numbered run (length ids)
    unfolding build_run_transcript_items
    ids-build_run_transcript_items =
        let s = finished-Sums.ids in
        s
        ∙ ap (numbered run) (
            sym (
              ap length s
              ∙ length-numbered run (finished session_updates permissions).segment_index))
