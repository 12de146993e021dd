-- ===== src/Transcript/Additions.antt =====
-- backend/app/transcript_projection.py: what each kind of entry adds to the sums.
use Prim.Native.String.{◌++◌ as append}
use text.Mathlib.TextLemmas.{append_assoc as text_assoc, append-nil as text_nil}
use pocage.Prelude.{
  if_true, if_false, String, ◌≡◌, refl, sym, ap, ◌∙◌, Bool, true, false, Option, none, some, List,
  [], ◌∷◌, ◌++◌, append_assoc, append-nil, if◌then◌else◌, arith, Bool-cases, inl, inr,
}
use pocage.Text.{concat}
use pocage.Rows.{PermissionRequest}
use pocage.Transcript.Defs.{
  PermissionItem, Step, SegmentKind, message, thought, steps as kind_of_steps,
}
use pocage.Transcript.Segments.{
  RunInfo, Builder, flush_segment, flush_pending_steps, start_segment, add_permission,
  permission_item, add_step, add_text, same_kind, one_step, start_if_none, open_segment,
}
use pocage.Transcript.Contents.{
  flat, flat-snoc, texts, texts-snoc, concat-append, request_in, id_in, steps_in, text_if,
}
use pocage.Transcript.Sums.{
  Sums, current, flush_segment-none, flush_segment-Sums, flush_pending_steps-Sums,
}

pub flush_pending_steps-none :
    (run : RunInfo) (b : Builder)
    → b.segment_kind ≡ none
    → (flush_pending_steps run b).segment_kind ≡ none
unfolding flush_pending_steps
flush_pending_steps-none run b e = ground arith

same_kind_eq : (a b : SegmentKind) → same_kind (some a) b ≡ true → a ≡ b
same_kind_eq message message h = refl
same_kind_eq thought thought h = refl
same_kind_eq kind_of_steps kind_of_steps h = refl
same_kind_eq message thought h = cc
same_kind_eq message kind_of_steps h = cc
same_kind_eq thought message h = cc
same_kind_eq thought kind_of_steps h = cc
same_kind_eq kind_of_steps message h = cc
same_kind_eq kind_of_steps thought h = cc

abbrev pub plus : (SegmentKind → String) → SegmentKind → String → SegmentKind → String
plus t kind text k = append (t k) (text_if k (some (kind, text)))

open_kind : (o : Option SegmentKind) (kind : SegmentKind) → same_kind o kind ≡ true → o ≡ some kind
open_kind none kind h = cc
open_kind (some k) kind h = ap some (same_kind_eq k kind h)

start_segment-kind :
    (b : Builder) (kind : SegmentKind) (created_at : String)
    → (start_segment b kind created_at).segment_kind ≡ some kind
unfolding start_segment
start_segment-kind b kind created_at = refl

start_if_none-some :
    (b : Builder) (o : Option SegmentKind) (kind : SegmentKind) (created_at : String)
    → o ≡ some kind
    → start_if_none b o kind created_at ≡ b
start_if_none-some b none kind created_at h = cc
start_if_none-some b (some k) kind created_at h = refl

start_if_none-none :
    (b : Builder) (o : Option SegmentKind) (kind : SegmentKind) (created_at : String)
    → o ≡ none
    → start_if_none b o kind created_at ≡ start_segment b kind created_at
start_if_none-none b none kind created_at h = refl
start_if_none-none b (some k) kind created_at h = cc

open_segment-same :
    (run : RunInfo) (b : Builder) (kind : SegmentKind) (created_at : String)
    → same_kind b.segment_kind kind ≡ true
    → open_segment run b kind created_at ≡ b
unfolding open_segment
open_segment-same run b kind created_at h =
    ap (λ f. start_if_none f f.segment_kind kind created_at) (if_true _ b (flush_segment run b) h)
    ∙ start_if_none-some b b.segment_kind kind created_at (open_kind b.segment_kind kind h)

open_segment-other :
    (run : RunInfo) (b : Builder) (kind : SegmentKind) (created_at : String)
    → same_kind b.segment_kind kind ≡ false
    → open_segment run b kind created_at ≡ start_segment (flush_segment run b) kind created_at
unfolding open_segment
open_segment-other run b kind created_at h =
    ap (λ f. start_if_none f f.segment_kind kind created_at) (if_false _ b (flush_segment run b) h)
    ∙ start_if_none-none (flush_segment run b) _ kind created_at (flush_segment-none run b)

regroup : (a x y z : List Step) → a ++ (x ++ (y ++ z)) ≡ (a ++ (x ++ y)) ++ z
regroup a x y z = ap (◌++◌ a) (sym (append_assoc x y z)) ∙ sym (append_assoc a (x ++ y) z)

open_text :
    (c : Bool) (parts : List String) (text : String)
    → ◌≡◌ {A = String}
        (if c then concat (parts ++ text ∷ []) else "")
        (append (if c then concat parts else "") (if c then text else ""))
unfolding concat
open_text true parts text =
    concat-append parts (text ∷ []) ∙ ap (append (concat parts)) (text_nil text)
open_text false parts text = refl

blank_text :
    (c : Bool) (parts : List String)
    → parts ≡ []
    → ◌≡◌ {A = String} (if c then concat parts else "") ""
unfolding concat
blank_text true parts h = rw h refl
blank_text false parts h = refl

module _ {t : SegmentKind → String} {ss : List Step} {ps : List PermissionItem}
    (run : RunInfo) where
  pub add_permission-Sums :
      (b : Builder) (request : PermissionRequest)
      → Sums run b t ss ps
      → Sums run (add_permission run b request) t ss (ps ++ permission_item request ∷ [])
  unfolding add_permission
  add_permission-Sums b request s =
      let f =
        flush_pending_steps-Sums run (flush_segment run b) (flush_segment-none run b)
          (flush_segment-Sums run b s) in
      let b' = flush_pending_steps run (flush_segment run b) in
      record {
        tidy = f.tidy;
        text = λ k.
            ap (λ u. append u (current k b'.segment_kind b'.segment_content_parts))
              (texts-snoc k b'.items _ ∙ text_nil (texts k b'.items))
            ∙ f.text k;
        steps =
            ap (λ l. l ++ (b'.segment_steps ++ b'.pending_steps))
              (flat-snoc steps_in b'.items _ ∙ append-nil _)
            ∙ f.steps;
        requests =
            flat-snoc request_in b'.items _
            ∙ ap (λ l. l ++ permission_item request ∷ []) f.requests;
        ids = flat-snoc id_in b'.items _ ∙ append-nil _ ∙ f.ids;
      }

  pub add_step-Sums :
      (b : Builder) (step : Option Step)
      → Sums run b t ss ps
      → Sums run (add_step run b step) t (ss ++ one_step step) ps
  unfolding add_step
  add_step-Sums b none s = rw (append-nil ss) s
  add_step-Sums b (some step) s =
      let f = flush_segment-Sums run b s in
      let b' = flush_segment run b in
      record {
        tidy = rw (flush_segment-none run b) (rw (flush_segment-none run b) at (f.tidy));
        text = f.text;
        steps =
            regroup (flat steps_in b'.items) b'.segment_steps b'.pending_steps (step ∷ [])
            ∙ ap (λ l. l ++ step ∷ []) f.steps;
        requests = f.requests;
        ids = f.ids;
      }

  -- A text joins the open segment of its kind.
  join-Sums :
      (b : Builder) (kind : SegmentKind) (text : String) (step : Option Step) (created_at : String)
      → b.segment_kind ≡ some kind
      → Sums run b t ss ps
      → Sums run
          (record b {
            segment_content_parts = b.segment_content_parts ++ text ∷ [];
            segment_updated_at = created_at;
            segment_steps = b.segment_steps ++ one_step step;
          })
          (plus t kind text)
          (ss ++ one_step step)
          ps
  join-Sums b kind text step created_at e s = record {
    tidy = rw e (rw e at (s.tidy));
    text = λ k. rw e (
        ap (append (texts k b.items))
          (open_text (same_kind (some kind) k) b.segment_content_parts text)
        ∙ sym (text_assoc (texts k b.items) _ _)
        ∙ ap (λ u. append u (if same_kind (some kind) k then text else "")) (rw e at (s.text k)));
    steps = rw (rw e at (s.tidy)) (
        ap (◌++◌ (flat steps_in b.items)) (append-nil _)
        ∙ sym (append_assoc (flat steps_in b.items) b.segment_steps (one_step step))
        ∙ ap (λ l. l ++ one_step step)
            (ap (◌++◌ (flat steps_in b.items)) (sym (append-nil b.segment_steps))
              ∙ (rw (rw e at (s.tidy)) at (s.steps))));
    requests = s.requests;
    ids = s.ids;
  }

  start-Sums :
      (b : Builder) (kind : SegmentKind) (created_at : String)
      → b.segment_kind ≡ none
      → Sums run b t ss ps
      → Sums run (start_segment b kind created_at) t ss ps
  unfolding start_segment
  start-Sums b kind created_at e s = record {
    tidy = refl;
    text = λ k.
        ap (append (texts k b.items))
          (blank_text (same_kind (some kind) k) b.segment_content_parts ((rw e at (s.tidy)).0))
        ∙ (rw e at (s.text k));
    steps =
        ap (◌++◌ (flat steps_in b.items)) (append-nil b.pending_steps)
        ∙ (rw ((rw e at (s.tidy)).1) at (s.steps));
    requests = s.requests;
    ids = s.ids;
  }

  pub add_text-Sums :
      (b : Builder) (kind : SegmentKind) (text : String) (step : Option Step) (created_at : String)
      → Sums run b t ss ps
      → Sums run
          (add_text run b kind text step created_at)
          (plus t kind text)
          (ss ++ one_step step)
          ps
  unfolding add_text
  add_text-Sums b kind text step created_at s = elim (Bool-cases (same_kind b.segment_kind kind)) [
    | inl h ↦
        rw (open_segment-same run b kind created_at h)
          (join-Sums b kind text step created_at (open_kind b.segment_kind kind h) s)
    | inr h ↦ rw (open_segment-other run b kind created_at h) (
        join-Sums (start_segment (flush_segment run b) kind created_at) kind text step created_at
          (start_segment-kind (flush_segment run b) kind created_at)
          (start-Sums (flush_segment run b) kind created_at (flush_segment-none run b)
            (flush_segment-Sums run b s)))
  ]
