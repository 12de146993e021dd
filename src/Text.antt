-- ===== src/Text.antt =====
-- Python's `str` methods that the program uses, over native texts: a text is its code points.
pub mod Search
use Prim.Native.Char.{code}
use Prim.Native.String.{◌++◌ as append}
use pocage.Prelude.{
  ℕ, zero, suc, String, Bool, true, false, ◌&&◌, ◌||◌, List, [], ◌∷◌, ◌==◌, leb, same,
  if◌then◌else◌,
}

-- str.isspace of one character
unfoldable pub is_space : ℕ → Bool
is_space c =
    (leb 9 c && leb c 13)
    || (leb 28 c && leb c 32)
    || same c 0x85
    || same c 0xa0
    || same c 0x1680
    || (leb 0x2000 c && leb c 0x200a)
    || same c 0x2028
    || same c 0x2029
    || same c 0x202f
    || same c 0x205f
    || same c 0x3000

unfoldable pub lstrip : String → String
lstrip String.[] = ""
lstrip (String.◌∷◌ c s) = let rest = lstrip s in if is_space (code c) then rest else String.◌∷◌ c s

unfoldable pub rstrip : String → String
rstrip String.[] = ""
rstrip (String.◌∷◌ c s) =
    let rest = rstrip s in if is_space (code c) && rest == "" then "" else String.◌∷◌ c rest

unfoldable pub strip : String → String
unfolding lstrip rstrip is_space
strip s = rstrip (lstrip s)

-- s[:n]
unfoldable pub prefix : ℕ → String → String
prefix zero s = ""
prefix (suc n) String.[] = ""
prefix (suc n) (String.◌∷◌ c s) = String.◌∷◌ c (prefix n s)

-- "".join(parts), and an f-string from its parts
unfoldable pub concat : List String → String
concat [] = ""
concat (s ∷ parts) = append s (concat parts)

-- separator.join(parts)
unfoldable pub join : String → List String → String
join separator [] = ""
join separator (s ∷ []) = s
join separator (s ∷ t ∷ parts) = append s (append separator (join separator (t ∷ parts)))

-- `bool(s)`
abbrev pub is_nonempty : String → Bool
is_nonempty String.[] = false
is_nonempty (String.◌∷◌ c s) = true

-- `a or b` of two texts
abbrev pub or_else : String → String → String
or_else String.[] t = t
or_else (String.◌∷◌ c s) t = String.◌∷◌ c s
