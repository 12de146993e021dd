-- ===== src/ContextSearch/Order.antt =====
-- The order of texts by code points, as a total order.
use Prim.Native.Char.{Char, code}
use Prim.Native.Nat.{Ordering, compare as compare_ℕ}
use Prim.Native.String.compare
use Prim.Native.String.{then as then_compare, compare as compare_text}
use text.Mathlib.Text.{is_le}
use pocage.Prelude.{String, ◌≡◌, refl, ap, ◌∙◌, true, false, same, ltb, if◌then◌else◌, arith}
use pocage.Rows.{text_le}

le-then :
    (o p : Ordering)
    → is_le (then_compare o p) ≡ (
        if elim o [ Ordering.eq ↦ true | _ ↦ false ]
        then is_le p
        else elim o [ Ordering.lt ↦ true | _ ↦ false ])
le-then Ordering.lt p = refl
le-then Ordering.eq p = refl
le-then Ordering.gt p = refl

text_le-cons :
    (c d : Char) (s t : String)
    → text_le (String.◌∷◌ c s) (String.◌∷◌ d t)
      ≡ (if same (code c) (code d) then text_le s t else ltb (code c) (code d))
text_le-cons c d s t =
    ap is_le (compare.cons-cons c d s t) ∙ le-then (compare_ℕ (code c) (code d)) (compare_text s t)

pub text_le-nil : (t : String) → text_le "" t ≡ true
text_le-nil String.[] = ap is_le compare.nil-nil
text_le-nil (String.◌∷◌ d t) = ap is_le (compare.nil-cons d t)

cons-text_le : (c : Char) (s : String) → text_le (String.◌∷◌ c s) "" ≡ false
cons-text_le c s = ap is_le (compare.cons-nil c s)

pub text_le-total : (a b : String) → text_le a b ≡ false → text_le b a ≡ true
text_le-total a String.[] h = text_le-nil a
text_le-total String.[] (String.◌∷◌ d t) h = let least = text_le-nil (String.◌∷◌ d t) in cc
text_le-total (String.◌∷◌ c s) (String.◌∷◌ d t) h =
    ground (arith, text_le-cons c d s t, text_le-cons d c t s, text_le-total s t)

pub text_le_trans : (a b e : String) → text_le a b ≡ true → text_le b e ≡ true → text_le a e ≡ true
text_le_trans String.[] b e h k = text_le-nil e
text_le_trans (String.◌∷◌ c s) String.[] e h k = let not_le = cons-text_le c s in cc
text_le_trans (String.◌∷◌ c s) (String.◌∷◌ d t) String.[] h k = let not_le = cons-text_le d t in cc
text_le_trans (String.◌∷◌ c s) (String.◌∷◌ d t) (String.◌∷◌ x u) h k =
    ground
      (arith, text_le-cons c d s t, text_le-cons d x t u, text_le-cons c x s u, text_le_trans s t u)
