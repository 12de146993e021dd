-- ===== src/Connector/PromptItemsRead.antt =====
-- connector/pocage/acp_client.py: what `_normalize_prompt_items` reads from items that stand for blocks.
use Prim.Native.String.{◌++◌ as append}
use text.Mathlib.TextLemmas.{append-nil as text_nil, append_assoc as text_assoc}
use pocage.Prelude.{
  String, ◌≡◌, refl, sym, ap, ◌∙◌, true, false, Option, none, some, List, [], ◌∷◌, map, All,
}
use pocage.Text.{concat, strip, is_nonempty, or_else}
use pocage.Text.Search.{
  starts_with, starts_with-append, contains, has_char, split_once, first_part, from_index,
  split_once-append, first_part-append, append-one, length_text, from_index-append, has_char-append,
  contains-append,
}
use pocage.Json.Defs.{Value, Fields, null, str, obj, to_fields}
use pocage.Json.Access.{get, member, as_str, stripped, nonempty_str}
use pocage.Connector.PromptItems.{
  ContentBlock, text_block, image_block, resource_link_block, adds, data_image, image_url_of,
  image_round, text_round, link_round, link_label, dict_round, item_round, item_blocks,
  normalize_prompt_items,
}

unfoldable pub data_url : (mime_type image_data : String) → String
data_url mime_type image_data = concat ("data:" ∷ mime_type ∷ ";base64," ∷ image_data ∷ [])

abbrev optional_text : Option String → Value
optional_text none = null
optional_text (some s) = str s

-- an item that stands for a block
unfoldable pub block_item : ContentBlock → Value
block_item (text_block text) = obj (to_fields (("type", str "text") ∷ ("text", str text) ∷ []))
block_item (image_block image_data mime_type uri) = obj (
    to_fields (
      ("type", str "image")
      ∷ ("image_url", str (data_url mime_type image_data))
      ∷ ("name", optional_text uri)
      ∷ []))
block_item (resource_link_block name uri title) = obj (
    to_fields (
      ("type", str "resource_link")
      ∷ ("uri", str uri)
      ∷ ("name", str name)
      ∷ ("relative_path", optional_text title)
      ∷ []))

abbrev pub IsTrimmed : String → Type 0
IsTrimmed s = (strip s ≡ s) × (is_nonempty s ≡ true)

-- The texts and labels are trimmed and not empty, an image has a media type without a comma or a
-- semicolon, and a link has an address.
unfoldable pub IsPlain : ContentBlock → Type 0
IsPlain (text_block text) = IsTrimmed text
IsPlain (image_block image_data mime_type uri) =
    (is_nonempty mime_type ≡ true)
    × (has_char b';' mime_type ≡ false)
    × (has_char b',' mime_type ≡ false)
IsPlain (resource_link_block name uri title) = IsTrimmed name × (is_nonempty uri ≡ true)

or_else_nonempty : (s t : String) → is_nonempty s ≡ true → or_else s t ≡ s
or_else_nonempty String.[] t h = cc
or_else_nonempty (String.◌∷◌ c s) t h = refl

nonempty_str_lem : (s : String) → is_nonempty s ≡ true → nonempty_str (str s) ≡ some s
unfolding nonempty_str
nonempty_str_lem s h = rw h refl

stripped_lem : (s : String) → IsTrimmed s → stripped (str s) ≡ some s
unfolding stripped
stripped_lem s h = rw (h.0, h.1) refl

-- The parts of a data URL.
data_url-starts_with :
    (mime image_data : String) → starts_with (data_url mime image_data) "data:" ≡ true
unfolding data_url concat
data_url-starts_with mime image_data = starts_with-append "data:" _

data_url-contains :
    (mime image_data : String) → contains (data_url mime image_data) ";base64," ≡ true
unfolding data_url concat
data_url-contains mime image_data =
    rw (sym (text_assoc "data:" mime (append ";base64," (append image_data ""))))
      (contains-append (append "data:" mime) ";base64," (append image_data ""))

data_url-parts :
    (mime image_data : String)
    → data_url mime image_data
      ≡ append (append (append "data:" mime) ";base64") (String.◌∷◌ "," image_data)
unfolding data_url concat
data_url-parts mime image_data =
    ap (append "data:") (
      ap (append mime) (
        ap (append ";base64,") (text_nil image_data)
        ∙ text_assoc ";base64" "," image_data
        ∙ ap (append ";base64") (append-one "," image_data))
      ∙ sym (text_assoc mime ";base64" _))
    ∙ sym (text_assoc "data:" (append mime ";base64") _)
    ∙ ap (λ s. append s (String.◌∷◌ "," image_data)) (sym (text_assoc "data:" mime ";base64"))

head-has_no_comma :
    (mime : String)
    → has_char b',' mime ≡ false
    → has_char b',' (append (append "data:" mime) ";base64") ≡ false
unfolding has_char
head-has_no_comma mime h =
    rw (has_char-append b',' (append "data:" mime) ";base64", has_char-append b',' "data:" mime, h)
      refl

data_url-split_once :
    (mime image_data : String)
    → has_char b',' mime ≡ false
    → split_once b',' (data_url mime image_data)
      ≡ some (append (append "data:" mime) ";base64", image_data)
data_url-split_once mime image_data h =
    ap (split_once b',') (data_url-parts mime image_data)
    ∙ split_once-append b',' "," (append (append "data:" mime) ";base64") image_data refl
        (head-has_no_comma mime h)

data_url-mime_type :
    (mime : String)
    → has_char b';' mime ≡ false
    → first_part b';' (from_index 5 (append (append "data:" mime) ";base64")) ≡ mime
unfolding length_text
data_url-mime_type mime h =
    ap (λ s. first_part b';' (from_index 5 s)) (text_assoc "data:" mime ";base64")
    ∙ ap (first_part b';') (from_index-append "data:" (append mime ";base64"))
    ∙ ap (λ s. first_part b';' (append mime s)) (sym (append-one ";" "base64"))
    ∙ ap (λ s. first_part b';' (append mime s)) (append-one ";" "base64")
    ∙ first_part-append b';' ";" mime "base64" refl h

starts_with-nonempty : (s : String) → starts_with s "data:" ≡ true → is_nonempty s ≡ true
unfolding starts_with
starts_with-nonempty String.[] h = cc
starts_with-nonempty (String.◌∷◌ c s) h = refl

image_url-data_url :
    (mime image_data : String)
    → nonempty_str (str (data_url mime image_data)) ≡ some (data_url mime image_data)
image_url-data_url mime image_data =
    nonempty_str_lem (data_url mime image_data)
      (starts_with-nonempty (data_url mime image_data) (data_url-starts_with mime image_data))

as_str-optional_text : (o : Option String) → as_str (optional_text o) ≡ o
as_str-optional_text none = refl
as_str-optional_text (some s) = refl

text_found :
    (item : Fields) (text : String)
    → stripped (get item "text") ≡ some text
    → text_round item ≡ adds (text_block text)
unfolding text_round
text_found item text h = rw (text_round, h) refl

text_round-block_item :
    (text : String)
    → IsTrimmed text
    → item_round (block_item (text_block text)) ≡ adds (text_block text)
unfolding item_round dict_round get member block_item
text_round-block_item text h = text_found _ text (stripped_lem text h)

image_found :
    (item : Fields) (image_url : String) (parts : String × String)
    → image_url_of item ≡ some image_url
    → starts_with image_url "data:" ≡ true
    → contains image_url ";base64," ≡ true
    → split_once b',' image_url ≡ some parts
    → image_round item ≡ data_image (as_str (get item "name")) (some parts)
unfolding image_round
image_found item image_url parts found starts holds split =
    rw (image_round, found, starts, holds, split) refl

-- The address of an image item is its `image_url` if that is a text that is not empty.
image_url_first :
    (item : Fields) (image_url : String)
    → nonempty_str (get item "image_url") ≡ some image_url
    → image_url_of item ≡ some image_url
unfolding image_url_of
image_url_first item image_url h = rw h refl

image_found-block_item :
    (image_data mime : String) (uri : Option String) (item : Fields)
    → IsPlain (image_block image_data mime uri)
    → image_url_of item ≡ some (data_url mime image_data)
    → as_str (get item "name") ≡ uri
    → image_round item ≡ adds (image_block image_data mime uri)
unfolding IsPlain
image_found-block_item image_data mime uri item (named, no_semicolon, no_comma) found name =
    image_found item (data_url mime image_data) _ found (data_url-starts_with mime image_data)
      (data_url-contains mime image_data) (data_url-split_once mime image_data no_comma)
    ∙ rw
        (
          data_url-mime_type mime no_semicolon,
          or_else_nonempty mime "application/octet-stream" named,
          name,
        )
        refl

image_round-block_item :
    (image_data mime : String) (uri : Option String)
    → IsPlain (image_block image_data mime uri)
    → item_round (block_item (image_block image_data mime uri))
      ≡ adds (image_block image_data mime uri)
unfolding item_round dict_round get member block_item
image_round-block_item image_data mime uri h =
    image_found-block_item image_data mime uri _ h
      (image_url_first _ (data_url mime image_data) (image_url-data_url mime image_data))
      (as_str-optional_text uri)

link_found :
    (item : Fields) (name uri : String) (title : Option String)
    → nonempty_str (get item "uri") ≡ some uri
    → stripped (get item "name") ≡ some name
    → as_str (get item "relative_path") ≡ title
    → is_nonempty name ≡ true
    → link_round item ≡ adds (resource_link_block name uri title)
unfolding link_round link_label
link_found item name uri title found labelled titled h =
    rw (link_round, found, link_label, labelled, h, titled) refl

link_round-block_item :
    (name uri : String) (title : Option String)
    → IsPlain (resource_link_block name uri title)
    → item_round (block_item (resource_link_block name uri title))
      ≡ adds (resource_link_block name uri title)
unfolding item_round dict_round get member block_item IsPlain
link_round-block_item name uri title (trimmed, addressed) =
    link_found _ name uri title (nonempty_str_lem uri addressed) (stripped_lem name trimmed)
      (as_str-optional_text title) trimmed.1

item_round-block_item :
    (block : ContentBlock) → IsPlain block → item_round (block_item block) ≡ adds block
unfolding IsPlain
item_round-block_item (text_block text) h = text_round-block_item text h
item_round-block_item (image_block image_data mime uri) h =
    image_round-block_item image_data mime uri h
item_round-block_item (resource_link_block name uri title) h =
    link_round-block_item name uri title h

item_blocks-block_item :
    (blocks : List ContentBlock)
    → All IsPlain blocks
    → item_blocks (map block_item blocks) ≡ some blocks
unfolding item_blocks
item_blocks-block_item [] h = refl
item_blocks-block_item (block ∷ blocks) h =
    rw (item_round-block_item block h.0, item_blocks-block_item blocks h.1) refl

-- Take blocks, at least one: texts that are trimmed and not empty, links with an address and with a
-- name that is trimmed and not empty, and images with a media type that is not empty and has no
-- comma and no semicolon. Written as items, and without other content, they are read back as the
-- same blocks, in order.
pub normalize_prompt_items-block_item :
    (block : ContentBlock) (blocks : List ContentBlock)
    → All IsPlain (block ∷ blocks)
    → normalize_prompt_items "" (map block_item (block ∷ blocks)) ≡ some (block ∷ blocks)
unfolding normalize_prompt_items strip
normalize_prompt_items-block_item block blocks h =
    rw (normalize_prompt_items, item_blocks-block_item (block ∷ blocks) h) refl
