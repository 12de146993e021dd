-- ===== src/Json/Dump.antt =====
-- `str` of a number, and `json.dumps(value, ensure_ascii=True, separators=(",", ":"))`.
use Prim.Native.Nat.{◌/◌, ◌%◌}
use Prim.Native.Char.{code}
use Prim.Native.String.{◌++◌ as append}
use pocage.Prelude.{
  ◌≡◌, refl, ℕ, zero, suc, ◌-◌, ◌+◌, String, true, false, [], ◌∷◌, if◌then◌else◌, same, ltb, leb,
}
use pocage.Text.{concat}
use pocage.Json.Defs.{
  Value, Items, Fields, null, bool, nat, number, str, arr, obj, nil, item, end, field,
}

-- the hexadecimal digit of a number below 16
abbrev pub digit : ℕ → String
digit n = if ltb n 8 then low n else high (n - 8)
  where
    low : ℕ → String
    low n =
        if same n 0
        then "0"
        else if same n 1
        then "1"
        else if same n 2
        then "2"
        else if same n 3
        then "3"
        else if same n 4
        then "4"
        else if same n 5
        then "5"
        else if same n 6
        then "6"
        else "7"

    high : ℕ → String
    high n =
        if same n 0
        then "8"
        else if same n 1
        then "9"
        else if same n 2
        then "a"
        else if same n 3
        then "b"
        else if same n 4
        then "c"
        else if same n 5
        then "d"
        else if same n 6
        then "e"
        else "f"

unfoldable pub show_from : ℕ → ℕ → String
show_from zero n = digit (n % 10)
show_from (suc fuel) n =
    let rest = show_from fuel (n / 10) in if ltb n 10 then digit n else append rest (digit (n % 10))

-- str(n); `n` itself is fuel enough for its digits
unfoldable pub show : ℕ → String
unfolding show_from
show n = show_from n n

-- \uXXXX
unfoldable pub unicode_escape : ℕ → String
unicode_escape c = concat (
    "\\u"
    ∷ digit (c / 4096 % 16)
    ∷ digit (c / 256 % 16)
    ∷ digit (c / 16 % 16)
    ∷ digit (c % 16)
    ∷ [])

-- a character in a JSON text; `whole` is the text of it alone
unfoldable pub escape : ℕ → String → String
escape c whole =
    if same c 0x22
    then "\\\""
    else if same c 0x5c
    then "\\\\"
    else if same c 8
    then "\\b"
    else if same c 9
    then "\\t"
    else if same c 10
    then "\\n"
    else if same c 12
    then "\\f"
    else if same c 13
    then "\\r"
    else if ltb c 0x20
    then unicode_escape c
    else if ltb c 0x7f
    then whole
    else if leb c 0xffff
    then unicode_escape c
    else append (unicode_escape (0xd800 + (c - 0x10000) / 1024))
        (unicode_escape (0xdc00 + (c - 0x10000) % 1024))

unfoldable pub escape_text : String → String
unfolding escape unicode_escape
escape_text String.[] = ""
escape_text (String.◌∷◌ c s) = append (escape (code c) (String.◌∷◌ c String.[])) (escape_text s)

unfoldable pub quoted : String → String
unfolding escape_text
quoted s = concat ("\"" ∷ escape_text s ∷ "\"" ∷ [])

unfoldable mutual
  unfolding quoted show

  pub dumps : Value → String
  dumps null = "null"
  dumps (bool true) = "true"
  dumps (bool false) = "false"
  dumps (nat n) = show n
  dumps (number t) = t
  dumps (str s) = quoted s
  dumps (arr vs) = concat ("[" ∷ dump_items vs ∷ "]" ∷ [])
  dumps (obj fs) = concat ("{" ∷ dump_fields fs ∷ "}" ∷ [])

  -- a comma stands between two items
  pub dump_items : Items → String
  dump_items nil = ""
  dump_items (item v vs) = append (dumps v) (dump_items_rest vs)

  pub dump_items_rest : Items → String
  dump_items_rest nil = ""
  dump_items_rest (item v vs) = concat ("," ∷ dumps v ∷ dump_items_rest vs ∷ [])

  pub dump_fields : Fields → String
  dump_fields end = ""
  dump_fields (field k v fs) = concat (quoted k ∷ ":" ∷ dumps v ∷ dump_fields_rest fs ∷ [])

  pub dump_fields_rest : Fields → String
  dump_fields_rest end = ""
  dump_fields_rest (field k v fs) =
      concat ("," ∷ quoted k ∷ ":" ∷ dumps v ∷ dump_fields_rest fs ∷ [])

dumps_sample :
    dumps (obj (field "n" (arr (item (nat 1204) (item (str "é\"") nil))) end))
    ≡ "{\"n\":[1204,\"\\u00e9\\\"\"]}"
unfolding dumps concat
dumps_sample = refl
