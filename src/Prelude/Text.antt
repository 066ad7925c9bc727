-- ===== src/Prelude/Text.antt =====
-- Texts and dictionaries with text keys: Go's and Python's maps as association lists.
pub mod Prefix
pub mod Replace
pub mod Split
pub mod Strip
use Prim.Native.String.{String}
use mathlib.Core.Path.{◌≡◌, refl}
use mathlib.Core.Bool.{Bool, false, ◌||◌}
use mathlib.Core.Option.{Option, none, some}
use mathlib.Core.List.{List, [], ◌∷◌}
use native.Mathlib.Omega.{arith}
use dt4mob_platform.Prelude.Tests.{if◌then◌else◌}
pub use Prim.Native.String.{String}
pub use text.Mathlib.Text.{◌==◌, starts_with}
pub use text.Mathlib.TextEquality.{eq_iff}
pub use text.Mathlib.TextPositions.{eq_refl}

abbrev pub contains : List String → String → Bool
contains [] s = false
contains (x ∷ xs) s = x == s || contains xs s

module _ {ℓ} {V : Type ℓ} where
  -- The value of a key: the first entry with it counts.
  abbrev pub lookup : (key : String) (entries : List (String × V)) → Option V
  lookup key [] = none
  lookup key ((name, value) ∷ rest) =
      let found = lookup key rest in if name == key then some value else found

  -- An assignment to a key: its entry keeps its place, or is added at the end.
  unfoldable pub insert :
      (key : String) (value : V) (entries : List (String × V)) → List (String × V)
  insert key value [] = (key, value) ∷ []
  insert key value ((name, old) ∷ rest) =
      let others = insert key value rest in
      if name == key then (key, value) ∷ rest else (name, old) ∷ others

  pub lookup-insert :
      (key other : String) (value : V) (entries : List (String × V))
      → lookup other (insert key value entries)
        ≡ (if key == other then some value else lookup other entries)
  unfolding insert
  lookup-insert key other value [] = refl
  lookup-insert key other value ((name, old) ∷ rest) =
      let later = lookup-insert key other value rest in
      ground (arith, later, eq_iff name key, eq_iff key other, eq_iff name other)

  -- `del d[key]` and `d.pop(key, None)`
  abbrev pub remove : (key : String) (entries : List (String × V)) → List (String × V)
  remove key [] = []
  remove key ((name, value) ∷ rest) =
      let others = remove key rest in if name == key then others else (name, value) ∷ others

  pub lookup-remove :
      (key other : String) (entries : List (String × V))
      → lookup other (remove key entries) ≡ (if key == other then none else lookup other entries)
  lookup-remove key other [] = ground arith
  lookup-remove key other ((name, value) ∷ rest) =
      let later = lookup-remove key other rest in
      ground (arith, later, eq_iff name key, eq_iff key other, eq_iff name other)
