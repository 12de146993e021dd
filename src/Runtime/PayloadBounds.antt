-- ===== src/Runtime/PayloadBounds.antt =====
-- backend/app/runtime_state.py: the size and the mark of a stored payload.
use pocage.Prelude.{
  ℕ, ◌+◌, ◌≤◌, ◌<◌, String, ◌≡◌, refl, ◌∙◌, ◌⊎◌, true, false, some, List, [], ◌∷◌, arith, ◌==◌, inl,
  inr, Option-cases, Bool-cases, leb,
}
use pocage.Json.Defs.{Fields, bool, nat, str, obj, to_fields}
use pocage.Json.Access.{member, get, as_str, member-put}
use pocage.Json.Size.{json_size, decimal_length}
use pocage.Runtime.Payload.{
  truncate_text, coerce_scalar, copy_scalar, copy_scalars, copy_error_message, bare_summary,
  summarize, fit_payload_within_limit, truncate_session_update_payload, normalized_event_payload,
  summary_keys, summarize_update,
}

bare_size : (n : ℕ) → json_size (obj (bare_summary n)) ≡ 41 + decimal_length n
unfolding bare_summary json_size
bare_size n = omega arith

fit_bounded :
    (event_type : String) (payload : Fields) (limit n : ℕ)
    → 41 + decimal_length n ≤ limit
    → json_size (obj (fit_payload_within_limit event_type payload limit n)) ≤ limit
unfolding fit_payload_within_limit
fit_bounded event_type payload limit n h = ground (arith, bare_size n)

-- The payload that stands for a session update that is too large.
abbrev update_candidate : Fields → ℕ → Fields
update_candidate payload n =
    (to_fields (
      ("run_id", get payload "run_id")
      ∷ ("session_id", get payload "session_id")
      ∷ ("update", obj (summarize_update (get payload "update")))
      ∷ ("truncated", bool true)
      ∷ ("original_size_bytes", nat n)
      ∷ []))

-- Where the limit leaves room for the bare summary (41 characters and the digits of the size), no
-- stored payload is larger than the limit, and a payload is changed only if it is larger.
pub normalized_event_payload-fits :
    (limit : ℕ) (event_type : String) (payload : Fields)
    → 41 + decimal_length (json_size (obj payload)) ≤ limit
    → (json_size (obj (normalized_event_payload limit event_type payload)) ≤ limit)
      × ((normalized_event_payload limit event_type payload ≡ payload)
          ⊎ (limit < json_size (obj payload)))
unfolding normalized_event_payload truncate_session_update_payload
normalized_event_payload-fits limit event_type payload h = (
  ground (
    arith,
    fit_bounded event_type payload limit (json_size (obj payload)),
    fit_bounded "run.session_update" (update_candidate payload (json_size (obj payload))) limit
        (json_size (obj payload)),
  ),
  elim (Bool-cases (leb (json_size (obj payload)) limit)) [
    | inl fits ↦ inl (ground arith)
    | inr large ↦ inr (ground arith)
  ],
)

member-copy_scalar :
    (source summary : Fields) (key j : String)
    → (key == j) ≡ false
    → member (copy_scalar source summary key) j ≡ member summary j
unfolding copy_scalar
member-copy_scalar source summary key j h = elim (Option-cases (member source key)) [
  | inl e ↦ rw (e, copy_scalar) refl
  | inr (v, e) ↦ rw (e, copy_scalar) (ground (arith, member-put summary key j (coerce_scalar v)))
]

abbrev AllMiss : String → List String → Type 0
AllMiss j [] = Unit
AllMiss j (k ∷ ks) = ((k == j) ≡ false) × AllMiss j ks

member-copy_scalars :
    (source : Fields) (ks : List String) (summary : Fields) (j : String)
    → AllMiss j ks
    → member (copy_scalars source ks summary) j ≡ member summary j
unfolding copy_scalars
member-copy_scalars source [] summary j h = refl
member-copy_scalars source (k ∷ ks) summary j h =
    member-copy_scalars source ks (copy_scalar source summary k) j h.1
    ∙ member-copy_scalar source summary k j h.0

member-copy_error_message :
    (source summary : Fields) (j : String)
    → ("error_message" == j) ≡ false
    → member (copy_error_message source summary) j ≡ member summary j
unfolding copy_error_message
member-copy_error_message source summary j h =
    elim (Option-cases (as_str (get source "error_message"))) [
      | inl e ↦ rw (e, copy_error_message) refl
      | inr (m, e) ↦
          rw (e, copy_error_message)
            (ground (arith, member-put summary "error_message" j (str (truncate_text m))))
    ]

abbrev IsMarked : Fields → Type 0
IsMarked fs = member fs "truncated" ≡ some (bool true)

summarize-IsMarked :
    (event_type : String) (candidate : Fields) (n : ℕ) → IsMarked (summarize event_type candidate n)
unfolding summarize member
summarize-IsMarked event_type candidate n =
    member-copy_error_message candidate _ "truncated" refl
    ∙ member-copy_scalars candidate summary_keys _ "truncated"
        (refl, (refl, (refl, (refl, (refl, (refl, (refl, tt)))))))

fit-IsMarked :
    (event_type : String) (payload : Fields) (limit n : ℕ)
    → (limit < json_size (obj payload)) ⊎ IsMarked payload
    → IsMarked (fit_payload_within_limit event_type payload limit n)
unfolding fit_payload_within_limit bare_summary member
fit-IsMarked event_type payload limit n h = ground (arith, summarize-IsMarked event_type payload n)

candidate-IsMarked : (payload : Fields) (n : ℕ) → IsMarked (update_candidate payload n)
unfolding member
candidate-IsMarked payload n = refl

-- A payload over the limit is stored with `"truncated": True`.
pub normalized_event_payload-marks :
    (limit : ℕ) (event_type : String) (payload : Fields)
    → limit < json_size (obj payload)
    → member (normalized_event_payload limit event_type payload) "truncated" ≡ some (bool true)
unfolding normalized_event_payload truncate_session_update_payload
normalized_event_payload-marks limit event_type payload h =
    let n = json_size (obj payload) in
    ground (
      arith,
      fit-IsMarked event_type payload limit n (inl h),
      fit-IsMarked "run.session_update" (update_candidate payload n) limit n
          (inr (candidate-IsMarked payload n)),
    )
