-- ===== src/Json/Defs.antt =====
-- The values of `Any`, dicts in insertion order.
use pocage.Prelude.{ℕ, String, Bool, List, [], ◌∷◌}

mutual
  pub data Value : Type 0 where
    null : Value
    bool : Bool → Value
    nat : ℕ → Value
    number : String → Value
    str : String → Value
    arr : Items → Value
    obj : Fields → Value

  pub data Items : Type 0 where
    nil : Items
    item : Value → Items → Items

  pub data Fields : Type 0 where
    end : Fields
    field : String → Value → Fields → Fields

unfoldable pub to_items : List Value → Items
to_items [] = nil
to_items (v ∷ vs) = item v (to_items vs)

unfoldable pub from_items : Items → List Value
from_items nil = []
from_items (item v vs) = v ∷ from_items vs

abbrev pub to_fields : List (String × Value) → Fields
to_fields [] = end
to_fields ((k, v) ∷ rest) = field k v (to_fields rest)
