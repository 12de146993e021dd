-- ===== src/Transcript/Sums.antt =====
-- backend/app/transcript_projection.py: what the local functions of `build_run_transcript_items` keep
-- of the texts, steps and requests that were added.
use Prim.Native.String.{◌++◌ as append}
use text.Mathlib.TextLemmas.{append-nil as text_nil}
use pocage.Prelude.{
  String, ◌≡◌, refl, sym, ap, ◌∙◌, Bool, true, false, not, ◌&&◌, Option, none, some, List, [], ◌∷◌,
  ◌++◌, append_assoc, append-nil, if◌then◌else◌, arith, Bool-cases, Option-cases, inl, inr,
}
use pocage.Text.{concat, is_nonempty}
use pocage.Transcript.Defs.{PermissionItem, Step, SegmentKind, steps as kind_of_steps}
use pocage.Transcript.Segments.{
  RunInfo, Builder, reset_segment, emit_segment, flush_segment, flush_pending_steps, same_kind,
  segment_id, is_empty_list,
}
use pocage.Transcript.Contents.{
  flat, flat-snoc, texts-snoc, texts, steps_in, request_in, id_in, numbered, numbered-add_one,
}

-- Without a segment nothing of one is held, and with one no step waits.
abbrev pub Tidy : Option SegmentKind → List String → List Step → List Step → Type 0
Tidy none parts steps pending = (parts ≡ []) × (steps ≡ [])
Tidy (some kind) parts steps pending = pending ≡ []

abbrev pub current : SegmentKind → Option SegmentKind → List String → String
current kind open_kind parts = if same_kind open_kind kind then concat parts else ""

-- The items and the variables of a builder hold the texts, steps and requests, in their order, and its segments are
-- numbered from 0.
pub record Sums (run : RunInfo) (b : Builder) (t : SegmentKind → String) (ss : List Step)
    (ps : List PermissionItem) : Type 0 where
  pub tidy : Tidy b.segment_kind b.segment_content_parts b.segment_steps b.pending_steps
  pub text :
      (kind : SegmentKind)
      → append (texts kind b.items) (current kind b.segment_kind b.segment_content_parts) ≡ t kind
  pub steps : flat steps_in b.items ++ (b.segment_steps ++ b.pending_steps) ≡ ss
  pub requests : flat request_in b.items ≡ ps
  pub ids : flat id_in b.items ≡ numbered run b.segment_index

nothing_open : (text : String) → is_nonempty text ≡ false → text ≡ ""
nothing_open String.[] h = refl
nothing_open (String.◌∷◌ c s) h = cc

nothing_stepped : (steps : List Step) → is_empty_list steps ≡ true → steps ≡ []
nothing_stepped [] h = refl
nothing_stepped (s ∷ steps) h = cc

either_way : (c : Bool) → ◌≡◌ {A = String} (if c then "" else "") ""
either_way true = refl
either_way false = refl

-- After a flush no segment is open.
pub flush_segment-none : (run : RunInfo) (b : Builder) → (flush_segment run b).segment_kind ≡ none
unfolding flush_segment reset_segment
flush_segment-none run b = ground arith

-- After a flush of the waiting steps none is left.
pub flush_pending_steps-empty :
    (run : RunInfo) (b : Builder) → (flush_pending_steps run b).pending_steps ≡ []
unfolding flush_pending_steps
flush_pending_steps-empty run b = ground (arith, nothing_stepped b.pending_steps)

module _ {t : SegmentKind → String} {ss : List Step} {ps : List PermissionItem}
    (run : RunInfo) where
  reset-Sums :
      (b : Builder) (kind : SegmentKind)
      → b.segment_kind ≡ some kind
      → concat b.segment_content_parts ≡ ""
      → b.segment_steps ≡ []
      → Sums run b t ss ps
      → Sums run (reset_segment run b) t ss ps
  unfolding reset_segment
  reset-Sums b kind e o z s = record {
    tidy = (refl, refl);
    text = λ k.
        ap (append (texts k b.items)) (sym (either_way (same_kind (some kind) k)))
        ∙ (rw (e, o) at (s.text k));
    steps = rw z at (s.steps);
    requests = s.requests;
    ids = s.ids;
  }

  emit-Sums :
      (b : Builder) (kind : SegmentKind)
      → b.segment_kind ≡ some kind
      → Sums run b t ss ps
      → Sums run (reset_segment run (emit_segment run b kind)) t ss ps
  unfolding reset_segment emit_segment
  emit-Sums b kind e s = record {
    tidy = (refl, refl);
    text = λ k. text_nil _ ∙ texts-snoc k b.items _ ∙ (rw e at (s.text k));
    steps =
        ap (λ l. l ++ b.pending_steps) (flat-snoc steps_in b.items _)
        ∙ append_assoc (flat steps_in b.items) b.segment_steps b.pending_steps
        ∙ s.steps;
    requests = flat-snoc request_in b.items _ ∙ append-nil _ ∙ s.requests;
    ids =
        flat-snoc id_in b.items _
        ∙ ap (λ l. l ++ segment_id run b.segment_index ∷ []) s.ids
        ∙ sym (numbered-add_one run b.segment_index);
  }

  none-Sums :
      (b : Builder)
      → b.segment_kind ≡ none
      → Sums run b t ss ps
      → Sums run (reset_segment run b) t ss ps
  unfolding reset_segment
  none-Sums b e s = record {
    tidy = (refl, refl);
    text = λ k. rw e at (s.text k);
    steps = rw ((rw e at (s.tidy)).1) at (s.steps);
    requests = s.requests;
    ids = s.ids;
  }

  pub flush_pending_steps-Sums :
      (b : Builder)
      → b.segment_kind ≡ none
      → Sums run b t ss ps
      → Sums run (flush_pending_steps run b) t ss ps
  unfolding flush_pending_steps
  flush_pending_steps-Sums b e s = elim (Bool-cases (is_empty_list b.pending_steps)) [
    | inl h ↦ rw h s
    | inr h ↦ rw h (record {
      tidy = rw e (rw e at (s.tidy));
      text = λ k.
          ap (λ u. append u (current k b.segment_kind b.segment_content_parts))
            (texts-snoc k b.items _
              ∙ ap (append (texts k b.items)) (either_way (same_kind (some kind_of_steps) k))
              ∙ text_nil (texts k b.items))
          ∙ s.text k;
      steps =
          rw ((rw e at (s.tidy)).1) (
            append-nil _ ∙ flat-snoc steps_in b.items _ ∙ (rw ((rw e at (s.tidy)).1) at (s.steps)));
      requests = flat-snoc request_in b.items _ ∙ append-nil _ ∙ s.requests;
      ids =
          flat-snoc id_in b.items _
          ∙ ap (λ l. l ++ segment_id run b.segment_index ∷ []) s.ids
          ∙ sym (numbered-add_one run b.segment_index);
    })
  ]

  pub flush_segment-Sums :
      (b : Builder) → Sums run b t ss ps → Sums run (flush_segment run b) t ss ps
  unfolding flush_segment
  flush_segment-Sums b s = elim (Option-cases b.segment_kind) [
    | inl e ↦ rw (e, flush_segment) (none-Sums b e s)
    | inr (kind, e) ↦
        elim (Bool-cases
          (not (is_nonempty (concat b.segment_content_parts)) && is_empty_list b.segment_steps)) [
            | inl h ↦
                rw (e, flush_segment, h)
                  (reset-Sums b kind e
                    (nothing_open (concat b.segment_content_parts) (ground arith))
                    (nothing_stepped b.segment_steps (ground arith)) s)
            | inr h ↦ rw (e, flush_segment, h) (emit-Sums b kind e s)
          ]
  ]
