-- ===== src/Connector/PromptItemsTotal.antt =====
-- connector/pocage/acp_client.py: `_normalize_prompt_items` on any items.
use pocage.Prelude.{
  String, ◌≡◌, refl, Bool, true, false, Option, some, List, [], ◌∷◌, arith, Option-cases, inl, inr,
}
use pocage.Text.{strip}
use pocage.Text.Search.{contains, has_char, split_once, contains-has_char, split_once-some}
use pocage.Json.Defs.{Value, Fields}
use pocage.Json.Access.{get, as_str, as_obj}
use pocage.Connector.PromptItems.{
  ContentBlock, Round, skips, raises, adds, data_image, image_url_of, text_round, image_round,
  link_round, dict_round, item_round, after_round, item_blocks, or_empty_text, before_items,
  normalize_prompt_items,
}

abbrev goes_on : Round → Bool
goes_on skips = true
goes_on raises = false
goes_on (adds block) = true

text_round-goes_on : (item : Fields) → goes_on (text_round item) ≡ true
unfolding text_round
text_round-goes_on item = ground arith

link_round-goes_on : (item : Fields) → goes_on (link_round item) ≡ true
unfolding link_round
link_round-goes_on item = ground arith

-- A data URL has the comma at which it is split.
data_image-goes_on :
    (name : Option String) (image_url : String)
    → contains image_url ";base64," ≡ true
    → goes_on (data_image name (split_once b',' image_url)) ≡ true
unfolding has_char
data_image-goes_on name image_url h =
    let (parts, e) =
      split_once-some b',' image_url (contains-has_char b',' image_url ";base64," h refl) in
    rw e refl

image_round-goes_on : (item : Fields) → goes_on (image_round item) ≡ true
unfolding image_round
image_round-goes_on item = elim (Option-cases (image_url_of item)) [
  | inl e ↦ rw (image_round, e) refl
  | inr (image_url, e) ↦
      rw (image_round, e) (ground (arith, data_image-goes_on (as_str (get item "name")) image_url))
]

dict_round-goes_on : (item : Fields) → goes_on (dict_round item) ≡ true
unfolding dict_round
dict_round-goes_on item =
    ground (arith, text_round-goes_on item, image_round-goes_on item, link_round-goes_on item)

item_round-goes_on : (item : Value) → goes_on (item_round item) ≡ true
unfolding item_round
item_round-goes_on item = elim (Option-cases (as_obj item)) [
  | inl e ↦ rw (item_round, e) refl
  | inr (fields, e) ↦ rw (item_round, e) (dict_round-goes_on fields)
]

after_round-goes_on :
    (round : Round) (rest : List ContentBlock)
    → goes_on round ≡ true
    → (blocks : List ContentBlock) × (after_round round (some rest) ≡ some blocks)
after_round-goes_on skips rest h = (rest, refl)
after_round-goes_on raises rest h = cc
after_round-goes_on (adds block) rest h = (block ∷ rest, refl)

item_blocks-some :
    (items : List Value) → (blocks : List ContentBlock) × (item_blocks items ≡ some blocks)
unfolding item_blocks
item_blocks-some [] = ([], refl)
item_blocks-some (item ∷ items) =
    let (rest, e) = item_blocks-some items in
    rw e (after_round-goes_on (item_round item) rest (item_round-goes_on item))

or_empty_text-cons :
    (blocks : List ContentBlock)
    → (first : ContentBlock) × (rest : List ContentBlock) × (or_empty_text blocks ≡ first ∷ rest)
or_empty_text-cons [] = (_, [], refl)
or_empty_text-cons (block ∷ blocks) = (block, blocks, refl)

-- Whatever the content and the items, the conversion raises nothing and gives at least one block.
pub normalize_prompt_items-returns :
    (content : String) (items : List Value)
    → (first : ContentBlock) × (rest : List ContentBlock) × (normalize_prompt_items content items
        ≡ some (first ∷ rest))
unfolding normalize_prompt_items
normalize_prompt_items-returns content items =
    let (blocks, e) = item_blocks-some items in
    let (first, rest, g) = or_empty_text-cons (before_items (strip content) blocks) in
    (first, rest, rw (normalize_prompt_items, e, g) refl)
