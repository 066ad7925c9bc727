-- ===== src/Json.antt =====
-- JSON values as the programs build and read them: Go's `map[string]any` and Python's `dict`. A
-- number is kept as its literal, since no program here computes with one.
use dt4mob_platform.Prelude.{Bool, Option, none, some, List, [], ◌∷◌}
use dt4mob_platform.Prelude.Text.{String, lookup}

mutual
  pub data Json : Type 0 where
    null : Json
    bool : Bool → Json
    num : String → Json
    str : String → Json
    arr : Items → Json
    obj : Fields → Json

  pub data Items : Type 0 where
    nil : Items
    cons : Json → Items → Items

  pub data Fields : Type 0 where
    end : Fields
    field : String → Json → Fields → Fields

-- An object from its entries, and its entries.
abbrev pub object : List (String × Json) → Fields
object [] = end
object ((k, v) ∷ rest) = field k v (object rest)

abbrev pub entries : Fields → List (String × Json)
entries end = []
entries (field k v rest) = (k, v) ∷ entries rest

-- Python's `value.get(key, default)`; `none` is the AttributeError of a value that is no dictionary.
abbrev pub or_else : Json → Option Json → Json
or_else default none = default
or_else default (some found) = found

abbrev pub get : String → Json → Json → Option Json
get key default (obj fields) = some (or_else default (lookup key (entries fields)))
get key default _ = none
