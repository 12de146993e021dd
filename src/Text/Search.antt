-- ===== src/Text/Search.antt =====
-- Python's tests and splits of texts: `startswith`, `in`, `split` at one character, slices from a start.
use Prim.Native.Char.{Char, code}
use Prim.Native.String.{◌++◌ as append}
use text.Mathlib.TextLemmas.{cons-append, nil-append}
use pocage.Prelude.{
  ℕ, zero, suc, String, ◌≡◌, refl, ap, ◌∙◌, Bool, true, false, ◌&&◌, ◌||◌, Option, none, some, same,
  if◌then◌else◌, arith, Bool-cases, inl, inr,
}

-- s.startswith(t)
unfoldable pub starts_with : String → String → Bool
starts_with s String.[] = true
starts_with String.[] (String.◌∷◌ d t) = false
starts_with (String.◌∷◌ c s) (String.◌∷◌ d t) = same (code c) (code d) && starts_with s t

-- t in s
unfoldable pub contains : String → String → Bool
unfolding starts_with
contains String.[] t = starts_with "" t
contains (String.◌∷◌ c s) t = starts_with (String.◌∷◌ c s) t || contains s t

-- a character in a text, by its code
unfoldable pub has_char : ℕ → String → Bool
has_char c String.[] = false
has_char c (String.◌∷◌ d s) = same (code d) c || has_char c s

abbrev cons_first : Char → Option (String × String) → Option (String × String)
cons_first d none = none
cons_first d (some parts) = some (String.◌∷◌ d parts.0, parts.1)

-- left, right = s.split(c, 1); `none` is the ValueError of a text without the character
unfoldable pub split_once : ℕ → String → Option (String × String)
split_once c String.[] = none
split_once c (String.◌∷◌ d s) =
    let rest = split_once c s in if same (code d) c then some ("", s) else cons_first d rest

-- s.split(c, 1)[0]
unfoldable pub first_part : ℕ → String → String
first_part c String.[] = ""
first_part c (String.◌∷◌ d s) =
    let rest = first_part c s in if same (code d) c then "" else String.◌∷◌ d rest

-- s.split(c)[-1]
unfoldable pub last_part : ℕ → String → String
unfolding has_char
last_part c String.[] = ""
last_part c (String.◌∷◌ d s) =
    let rest = last_part c s in
    if has_char c s then rest else if same (code d) c then s else String.◌∷◌ d s

-- s[n:]
unfoldable pub from_index : ℕ → String → String
from_index zero s = s
from_index (suc n) String.[] = ""
from_index (suc n) (String.◌∷◌ c s) = from_index n s

pub split_once-append :
    (c : ℕ) (d : Char) (s t : String)
    → code d ≡ c
    → has_char c s ≡ false
    → split_once c (append s (String.◌∷◌ d t)) ≡ some (s, t)
unfolding split_once has_char
split_once-append c d String.[] t e h = rw (nil-append (String.◌∷◌ d t)) (ground arith)
split_once-append c d (String.◌∷◌ x s) t e h =
    rw (cons-append x s (String.◌∷◌ d t)) (ground (arith, split_once-append c d s t e))

pub first_part-append :
    (c : ℕ) (d : Char) (s t : String)
    → code d ≡ c
    → has_char c s ≡ false
    → first_part c (append s (String.◌∷◌ d t)) ≡ s
unfolding first_part has_char
first_part-append c d String.[] t e h = rw (nil-append (String.◌∷◌ d t)) (ground arith)
first_part-append c d (String.◌∷◌ x s) t e h =
    rw (cons-append x s (String.◌∷◌ d t)) (ground (arith, first_part-append c d s t e))

pub has_char-append :
    (c : ℕ) (s t : String) → has_char c (append s t) ≡ has_char c s || has_char c t
unfolding has_char
has_char-append c String.[] t = rw (nil-append t) refl
has_char-append c (String.◌∷◌ x s) t =
    rw (cons-append x s t) (ground (arith, has_char-append c s t))

pub starts_with-append : (s t : String) → starts_with (append s t) s ≡ true
unfolding starts_with
starts_with-append String.[] t = refl
starts_with-append (String.◌∷◌ x s) t =
    rw (cons-append x s t) (ground (arith, starts_with-append s t))

contains-start : (s t : String) → starts_with s t ≡ true → contains s t ≡ true
unfolding contains
contains-start String.[] t h = h
contains-start (String.◌∷◌ c s) t h = ground arith

pub contains-append : (s t u : String) → contains (append s (append t u)) t ≡ true
unfolding contains
contains-append String.[] t u =
    rw (nil-append (append t u)) (contains-start (append t u) t (starts_with-append t u))
contains-append (String.◌∷◌ x s) t u =
    rw (cons-append x s (append t u)) (ground (arith, contains-append s t u))

starts_with-has_char :
    (c : ℕ) (s t : String) → starts_with s t ≡ true → has_char c t ≡ true → has_char c s ≡ true
unfolding starts_with has_char
starts_with-has_char c s String.[] h k = cc
starts_with-has_char c String.[] (String.◌∷◌ d t) h k = cc
starts_with-has_char c (String.◌∷◌ x s) (String.◌∷◌ d t) h k =
    ground (arith, starts_with-has_char c s t)

has_char-later :
    (c : ℕ) (x : Char) (s : String) → has_char c s ≡ true → has_char c (String.◌∷◌ x s) ≡ true
unfolding has_char
has_char-later c x s h = ground arith

pub contains-has_char :
    (c : ℕ) (s t : String) → contains s t ≡ true → has_char c t ≡ true → has_char c s ≡ true
unfolding contains
contains-has_char c String.[] t h k = starts_with-has_char c "" t h k
contains-has_char c (String.◌∷◌ x s) t h k = elim (Bool-cases (starts_with (String.◌∷◌ x s) t)) [
  | inl e ↦ starts_with-has_char c (String.◌∷◌ x s) t e k
  | inr e ↦ has_char-later c x s (contains-has_char c s t (rw e at h) k)
]

pub split_once-some :
    (c : ℕ) (s : String)
    → has_char c s ≡ true
    → (parts : String × String) × (split_once c s ≡ some parts)
unfolding split_once has_char
split_once-some c String.[] h = cc
split_once-some c (String.◌∷◌ x s) h = elim (Bool-cases (same (code x) c)) [
  | inl e ↦ (("", s), rw e refl)
  | inr e ↦
      let (parts, found) = split_once-some c s (rw e at h) in
      ((String.◌∷◌ x parts.0, parts.1), rw (e, found) refl)
]

-- One character in front of a text, as a text before it and as the text's first character.
pub append-one : (c : Char) (s : String) → append (String.◌∷◌ c "") s ≡ String.◌∷◌ c s
append-one c s = cons-append c "" s ∙ ap (String.◌∷◌ c) (nil-append s)

unfoldable pub length_text : String → ℕ
length_text String.[] = 0
length_text (String.◌∷◌ c s) = suc (length_text s)

pub from_index-append : (s t : String) → from_index (length_text s) (append s t) ≡ t
unfolding from_index length_text
from_index-append String.[] t = nil-append t
from_index-append (String.◌∷◌ c s) t = rw (cons-append c s t) (from_index-append s t)
