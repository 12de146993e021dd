-- ===== src/Transcript/Contents.antt =====
-- backend/app/transcript_projection.py: what the items of a run's transcript hold, and what each entry
-- adds to them.
use Prim.Native.String.{◌++◌ as append}
use text.Mathlib.TextLemmas.{append_assoc as text_assoc, nil-append, append-nil as text_nil}
use pocage.Prelude.{
  ℕ, zero, suc, ◌+◌, String, ◌≡◌, refl, sym, ap, ◌∙◌, Option, none, some, List, [], ◌∷◌, ◌++◌,
  append_assoc, append-nil, length, length-append, if◌then◌else◌, arith,
}
use pocage.Text.{concat}
use pocage.Json.Defs.{Fields}
use pocage.Rows.{RunEvent}
use pocage.Transcript.Defs.{
  Update, Step, SegmentKind, Item, assistant_segment, permission_request, PermissionItem, user_item,
}
use pocage.Transcript.Updates.{step_from_update, visible_segment}
use pocage.Transcript.Segments.{
  permission_item, RunInfo, Entry, session_update, permission, raw_update_of, same_kind, one_step,
  segment_id,
}

abbrev pub flat {ℓ κ} : {A : Type ℓ} {B : Type κ} → (A → List B) → List A → List B
flat f [] = []
flat f (x ∷ xs) = f x ++ flat f xs

pub flat-append {ℓ κ} :
    {A : Type ℓ} {B : Type κ} (f : A → List B) (xs ys : List A)
    → flat f (xs ++ ys) ≡ flat f xs ++ flat f ys
flat-append f [] ys = refl
flat-append f (x ∷ xs) ys =
    ap (◌++◌ (f x)) (flat-append f xs ys) ∙ sym (append_assoc (f x) (flat f xs) (flat f ys))

pub concat-append : (xs ys : List String) → concat (xs ++ ys) ≡ append (concat xs) (concat ys)
unfolding concat
concat-append [] ys = sym (nil-append (concat ys))
concat-append (x ∷ xs) ys =
    ap (append x) (concat-append xs ys) ∙ sym (text_assoc x (concat xs) (concat ys))

-- The text of the segments of a kind.
abbrev pub text_of : SegmentKind → Item → String
text_of kind (assistant_segment s) = if same_kind (some s.segment_kind) kind then s.content else ""
text_of kind (permission_request request) = ""
text_of kind (user_item m) = ""

abbrev pub texts : SegmentKind → List Item → String
texts kind [] = ""
texts kind (item ∷ rest) = append (text_of kind item) (texts kind rest)

pub texts-append :
    (kind : SegmentKind) (xs ys : List Item)
    → texts kind (xs ++ ys) ≡ append (texts kind xs) (texts kind ys)
texts-append kind [] ys = sym (nil-append (texts kind ys))
texts-append kind (x ∷ xs) ys =
    ap (append (text_of kind x)) (texts-append kind xs ys)
    ∙ sym (text_assoc (text_of kind x) (texts kind xs) (texts kind ys))

pub flat-snoc {ℓ κ} :
    {A : Type ℓ} {B : Type κ} (f : A → List B) (xs : List A) (x : A)
    → flat f (xs ++ x ∷ []) ≡ flat f xs ++ f x
flat-snoc f xs x = flat-append f xs (x ∷ []) ∙ ap (◌++◌ (flat f xs)) (append-nil (f x))

pub texts-snoc :
    (kind : SegmentKind) (xs : List Item) (x : Item)
    → texts kind (xs ++ x ∷ []) ≡ append (texts kind xs) (text_of kind x)
texts-snoc kind xs x =
    texts-append kind xs (x ∷ []) ∙ ap (append (texts kind xs)) (text_nil (text_of kind x))

abbrev pub steps_in : Item → List Step
steps_in (assistant_segment s) = s.steps
steps_in (permission_request request) = []
steps_in (user_item m) = []

abbrev pub request_in : Item → List PermissionItem
request_in (assistant_segment s) = []
request_in (permission_request request) = request ∷ []
request_in (user_item m) = []

abbrev pub id_in : Item → List String
id_in (assistant_segment s) = s.segment_id ∷ []
id_in (permission_request request) = []
id_in (user_item m) = []

-- The first `n` segment ids of a run.
abbrev pub numbered : RunInfo → ℕ → List String
numbered run zero = []
numbered run (suc n) = numbered run n ++ segment_id run n ∷ []

pub numbered-add_one :
    (run : RunInfo) (n : ℕ) → numbered run (n + 1) ≡ numbered run n ++ segment_id run n ∷ []
numbered-add_one run n = let h : n + 1 ≡ suc n = omega arith in ap (numbered run) h

pub length-numbered : (run : RunInfo) (n : ℕ) → length (numbered run n) ≡ n
length-numbered run zero = refl
length-numbered run (suc n) =
    omega (arith, length-append (numbered run n) (segment_id run n ∷ []), length-numbered run n)

abbrev pub text_if : SegmentKind → Option (SegmentKind × String) → String
text_if kind none = ""
text_if kind (some (k, text)) = if same_kind (some k) kind then text else ""

abbrev pub entry_request : Entry → List PermissionItem
entry_request entry = elim entry.payload [
  | permission request ↦ permission_item request ∷ []
  | session_update event ↦ []
]

module _ (validate : Fields → Option Update) where
  abbrev pub event_text : SegmentKind → RunEvent → String
  event_text kind event = elim (raw_update_of event) [
    | none ↦ ""
    | some raw_update ↦ text_if kind (visible_segment (validate raw_update))
  ]

  abbrev pub event_steps : RunEvent → List Step
  event_steps event = elim (raw_update_of event) [
    | none ↦ []
    | some raw_update ↦ one_step (step_from_update (validate raw_update) raw_update event)
  ]

  -- The text of a kind that an entry shows.
  abbrev pub entry_text : SegmentKind → Entry → String
  entry_text kind entry = elim entry.payload [
    | permission request ↦ ""
    | session_update event ↦ event_text kind event
  ]

  abbrev pub entry_texts : SegmentKind → List Entry → String
  entry_texts kind [] = ""
  entry_texts kind (entry ∷ rest) = append (entry_text kind entry) (entry_texts kind rest)

  -- The step that an entry adds.
  abbrev pub entry_steps : Entry → List Step
  entry_steps entry = elim entry.payload [
    | permission request ↦ []
    | session_update event ↦ event_steps event
  ]
