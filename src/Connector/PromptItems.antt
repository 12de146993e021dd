-- ===== src/Connector/PromptItems.antt =====
-- connector/pocage/acp_client.py: `_normalize_prompt_items`, the content blocks of a prompt. A block
-- stands for what the constructors of `acp` are called with.
use Prim.Native.String.{◌++◌ as append}
use pocage.Prelude.{String, ◌&&◌, Option, none, some, List, [], ◌∷◌, if◌then◌else◌}
use pocage.Text.{strip, is_nonempty, or_else}
use pocage.Text.Search.{starts_with, contains, split_once, first_part, last_part, from_index}
use pocage.Json.Defs.{Value, Fields}
use pocage.Json.Access.{get, as_str, as_obj, is_text, stripped, nonempty_str}

pub data ContentBlock : Type 0 where
  text_block : (text : String) → ContentBlock
  image_block : (image_data mime_type : String) → (uri : Option String) → ContentBlock
  resource_link_block : (name uri : String) → (title : Option String) → ContentBlock

-- what one round of the loop does: it adds a block, goes on without one, or raises
pub data Round : Type 0 where
  skips raises : Round
  adds : ContentBlock → Round

unfoldable pub text_round : Fields → Round
text_round item = elim (stripped (get item "text")) [
  | none ↦ skips
  | some text ↦ adds (text_block text)
]

-- the image of a data URL; the `split` at a comma raises when there is none
abbrev pub data_image : Option String → Option (String × String) → Round
data_image name none = raises
data_image name (some (head, image_data)) = adds (
    image_block image_data
      (or_else (first_part b';' (from_index 5 head)) "application/octet-stream") name)

abbrev first_of : Option String → Option String → Option String
first_of none b = b
first_of (some s) b = some s

-- item["image_url"], or else item["imageUrl"], where it is a text that is not empty
unfoldable pub image_url_of : Fields → Option String
image_url_of item =
    first_of (nonempty_str (get item "image_url")) (nonempty_str (get item "imageUrl"))

unfoldable pub image_round : Fields → Round
image_round item = elim (image_url_of item) [
  | none ↦ skips
  | some image_url ↦
      if starts_with image_url "data:" && contains image_url ";base64,"
      then data_image (as_str (get item "name")) (split_once b',' image_url)
      else adds (text_block (append "[image] " image_url))
]

-- the label of a link: the name, or the last part of the path
unfoldable pub link_label : Value → Value → Option String
link_label name relative_path = elim (stripped name) [
  | some label ↦ some label
  | none ↦ elim (stripped relative_path) [ none ↦ none | some path ↦ some (last_part b'/' path) ]
]

abbrev pub link : Option String → Option String → Option String → Round
link none label title = skips
link (some uri) none title = skips
link (some uri) (some label) title =
    if is_nonempty label then adds (resource_link_block label uri title) else skips

unfoldable pub link_round : Fields → Round
link_round item =
    link (nonempty_str (get item "uri")) (link_label (get item "name") (get item "relative_path"))
      (as_str (get item "relative_path"))

unfoldable pub dict_round : Fields → Round
dict_round item =
    let item_type = get item "type" in
    if is_text item_type "text"
    then text_round item
    else if is_text item_type "image"
    then image_round item
    else if is_text item_type "resource_link"
    then link_round item
    else skips

unfoldable pub item_round : Value → Round
item_round item = elim (as_obj item) [ none ↦ skips | some fields ↦ dict_round fields ]

abbrev pub after_round : Round → Option (List ContentBlock) → Option (List ContentBlock)
after_round skips rest = rest
after_round raises rest = none
after_round (adds block) none = none
after_round (adds block) (some blocks) = some (block ∷ blocks)

-- the loop over the items
unfoldable pub item_blocks : List Value → Option (List ContentBlock)
item_blocks [] = some []
item_blocks (item ∷ items) = after_round (item_round item) (item_blocks items)

abbrev pub or_empty_text : List ContentBlock → List ContentBlock
or_empty_text [] = text_block "" ∷ []
or_empty_text (block ∷ blocks) = block ∷ blocks

abbrev pub before_items : String → List ContentBlock → List ContentBlock
before_items text_content blocks =
    if is_nonempty text_content then text_block text_content ∷ blocks else blocks

-- `none` is the ValueError
unfoldable pub normalize_prompt_items : String → List Value → Option (List ContentBlock)
normalize_prompt_items content items = elim (item_blocks items) [
  | none ↦ none
  | some blocks ↦ some (or_empty_text (before_items (strip content) blocks))
]
