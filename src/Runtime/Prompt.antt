-- ===== src/Runtime/Prompt.antt =====
-- backend/app/runtime_state.py: the prompt items of a message, and the text shown for them. `kind` of
-- a resource link is a text or missing, as the request models have it.
use pocage.Prelude.{
  String, Bool, true, false, ◌&&◌, ◌||◌, Option, none, some, List, [], ◌∷◌, if◌then◌else◌,
}
use pocage.Text.{concat, join, strip, is_nonempty}
use pocage.Json.Defs.{Value, Fields, str, to_fields}
use pocage.Json.Access.{get, as_str, as_obj, is_text, stripped}

unfoldable pub text_item : Fields → Option Fields
text_item item = elim (stripped (get item "text")) [
  | none ↦ none
  | some text ↦ some (to_fields (("type", str "text") ∷ ("text", str text) ∷ []))
]

unfoldable pub image_item : Fields → Option Fields
image_item item = elim (stripped (get item "image_url")) [
  | none ↦ none
  | some image_url ↦ some (
      to_fields (
        ("type", str "image")
        ∷ ("image_url", str image_url)
        ∷ ("name", get item "name")
        ∷ ("mime_type", get item "mime_type")
        ∷ ("size", get item "size")
        ∷ []))
]

abbrev link : Value → Option String → Option String → Option String → Option Fields
link kind (some uri) (some name) (some relative_path) =
    if is_text kind "file" || is_text kind "directory"
    then some (
        to_fields (
          ("type", str "resource_link")
          ∷ ("uri", str uri)
          ∷ ("name", str name)
          ∷ ("relative_path", str relative_path)
          ∷ ("kind", kind)
          ∷ []))
    else none
link kind _ _ _ = none

unfoldable pub resource_link_item : Fields → Option Fields
resource_link_item item =
    link (get item "kind") (stripped (get item "uri")) (stripped (get item "name"))
      (stripped (get item "relative_path"))

-- one round of the loop of `_normalize_prompt_items`
unfoldable pub normalize_prompt_item : Fields → Option Fields
normalize_prompt_item item =
    let item_type = get item "type" in
    if is_text item_type "text"
    then text_item item
    else if is_text item_type "image"
    then image_item item
    else if is_text item_type "resource_link"
    then resource_link_item item
    else none

abbrev dict_item : Value → Option Fields
dict_item item = elim (as_obj item) [ none ↦ none | some fs ↦ normalize_prompt_item fs ]

abbrev add_item : Option Fields → List Fields → List Fields
add_item none rest = rest
add_item (some item) rest = item ∷ rest

unfoldable pub normalize_prompt_items : List Value → List Fields
normalize_prompt_items [] = []
normalize_prompt_items (item ∷ rest) = add_item (dict_item item) (normalize_prompt_items rest)

-- what one item adds to the content
unfoldable pub item_content : Fields → Option String
item_content item =
    let item_type = get item "type" in
    if is_text item_type "text" && is_str (get item "text")
    then stripped (get item "text")
    else if is_text item_type "image"
    then some "[image]"
    else if is_text item_type "resource_link"
    then some (link_label (stripped (get item "relative_path")) (stripped (get item "name")))
    else other_label (as_str item_type)
  where
    is_str : Value → Bool
    is_str v = elim (as_str v) [ none ↦ false | some s ↦ true ]

    link_label : Option String → Option String → String
    link_label (some relative_path) name = concat ("@" ∷ relative_path ∷ [])
    link_label none (some name) = concat ("@" ∷ name ∷ [])
    link_label none none = "[resource]"

    other_label : Option String → Option String
    other_label none = none
    other_label (some t) = if is_nonempty t then some (concat ("[" ∷ t ∷ "]" ∷ [])) else none

abbrev add_part : Option String → List String → List String
add_part none rest = rest
add_part (some part) rest = part ∷ rest

unfoldable pub content_parts : List Fields → List String
content_parts [] = []
content_parts (item ∷ rest) = add_part (item_content item) (content_parts rest)

unfoldable pub prompt_items_to_user_content : List Fields → String
prompt_items_to_user_content items = strip (join "\n" (content_parts items))
