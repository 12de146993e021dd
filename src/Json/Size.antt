-- ===== src/Json/Size.antt =====
-- `_json_size_bytes`: the length of `json.dumps(value, ensure_ascii=True, separators=(",", ":"))`.
-- The output is ASCII, so its UTF-8 bytes are its characters.
use Prim.Native.Nat.{◌/◌}
use Prim.Native.Char.{code}
use Prim.Native.String.{count}
use pocage.Prelude.{
  ℕ, ◌≡◌, refl, zero, suc, ◌+◌, String, true, false, ◌||◌, same, ltb, leb, if◌then◌else◌,
}
use pocage.Json.Defs.{
  Value, Items, Fields, null, bool, nat, number, str, arr, obj, nil, item, end, field,
}

-- The digits of a number in decimal; `n` itself is fuel enough.
unfoldable pub decimal_length_from : ℕ → ℕ → ℕ
decimal_length_from zero n = 1
decimal_length_from (suc fuel) n =
    let rest = decimal_length_from fuel (n / 10) in if ltb n 10 then 1 else suc rest

unfoldable pub decimal_length : ℕ → ℕ
unfolding decimal_length_from
decimal_length n = decimal_length_from n n

-- `"` `\` and the five short escapes take two characters, `\uXXXX` six, a surrogate pair twelve
unfoldable pub escaped_length : ℕ → ℕ
escaped_length c =
    if same c 0x22 || same c 0x5c || same c 8 || same c 9 || same c 10 || same c 12 || same c 13
    then 2
    else if ltb c 0x20
    then 6
    else if ltb c 0x7f
    then 1
    else if leb c 0xffff
    then 6
    else 12

unfoldable pub escaped_text : String → ℕ
unfolding escaped_length
escaped_text String.[] = 0
escaped_text (String.◌∷◌ c s) = escaped_length (code c) + escaped_text s

unfoldable pub str_size : String → ℕ
unfolding escaped_text
str_size s = 2 + escaped_text s

unfoldable mutual
  unfolding str_size decimal_length

  pub json_size : Value → ℕ
  json_size null = 4
  json_size (bool true) = 4
  json_size (bool false) = 5
  json_size (nat n) = decimal_length n
  json_size (number t) = count t
  json_size (str s) = str_size s
  json_size (arr vs) = 2 + items_size vs
  json_size (obj fs) = 2 + fields_size fs

  -- a comma stands between two items
  pub items_size : Items → ℕ
  items_size nil = 0
  items_size (item v vs) = json_size v + items_rest vs

  pub items_rest : Items → ℕ
  items_rest nil = 0
  items_rest (item v vs) = 1 + json_size v + items_rest vs

  pub fields_size : Fields → ℕ
  fields_size end = 0
  fields_size (field k v fs) = str_size k + 1 + json_size v + fields_rest fs

  pub fields_rest : Fields → ℕ
  fields_rest end = 0
  fields_rest (field k v fs) = 1 + str_size k + 1 + json_size v + fields_rest fs

-- {"truncated":true,"n":[1234,"é"]}
json_size_sample :
    json_size (
      obj (
        field "truncated" (bool true) (field "n" (arr (item (nat 1234) (item (str "é") nil))) end)))
    ≡ 38
unfolding json_size
json_size_sample = refl
