-- ===== src/Json/Access.antt =====
-- Reading and writing JSON objects the way the program does: `get`, `in`, `d[k] = v`, `isinstance`.
use pocage.Prelude.{
  String, ◌≡◌, Bool, true, false, not, ◌||◌, Option, none, some, ◌==◌, same, if◌then◌else◌, arith,
  eq_iff, List, [], ◌∷◌,
}
use pocage.Text.{is_nonempty, strip}
use pocage.Json.Defs.{Value, Fields, null, bool, nat, number, str, arr, obj, nil, item, end, field}

-- payload.get(key), as an option: `none` is a missing key
unfoldable pub member : Fields → String → Option Value
member end k = none
member (field j v fs) k = if j == k then some v else member fs k

-- payload.get(key): a missing key reads as None
unfoldable pub get : Fields → String → Value
unfolding member
get fs k = elim (member fs k) [ none ↦ null | some v ↦ v ]

-- d[k] = v
unfoldable pub put : Fields → String → Value → Fields
put end k v = field k v end
put (field j w fs) k v = if j == k then field j v fs else field j w (put fs k v)

unfoldable pub keys : Fields → List String
keys end = []
keys (field k v fs) = k ∷ keys fs

-- isinstance(value, str)
abbrev pub as_str : Value → Option String
as_str (str s) = some s
as_str null = none
as_str (bool b) = none
as_str (nat n) = none
as_str (number t) = none
as_str (arr vs) = none
as_str (obj fs) = none

-- value == "…"
abbrev pub is_text : Value → String → Bool
is_text v s = elim (as_str v) [ none ↦ false | some t ↦ t == s ]

-- isinstance(value, dict)
abbrev pub as_obj : Value → Option Fields
as_obj (obj fs) = some fs
as_obj null = none
as_obj (bool b) = none
as_obj (nat n) = none
as_obj (number t) = none
as_obj (str s) = none
as_obj (arr vs) = none

-- isinstance(value, str) and value.strip(): the stripped text
unfoldable pub stripped : Value → Option String
stripped v = elim (as_str v) [
  | none ↦ none
  | some s ↦ if is_nonempty (strip s) then some (strip s) else none
]

-- isinstance(value, str) and value: the text
unfoldable pub nonempty_str : Value → Option String
nonempty_str v = elim (as_str v) [ none ↦ none | some s ↦ if is_nonempty s then some s else none ]

-- bool(value)
unfoldable pub truthy : Value → Bool
truthy null = false
truthy (bool b) = b
truthy (nat n) = not (same n 0)
truthy (number t) = not (t == "0.0" || t == "-0.0")
truthy (str s) = is_nonempty s
truthy (arr nil) = false
truthy (arr (item v vs)) = true
truthy (obj end) = false
truthy (obj (field k v fs)) = true

pub member-put :
    (fs : Fields) (k j : String) (v : Value)
    → member (put fs k v) j ≡ (if k == j then some v else member fs j)
unfolding member put
member-put end k j v = ground arith
member-put (field i w fs) k j v =
    ground (arith, eq_iff i k, eq_iff i j, eq_iff k j, member-put fs k j v)
