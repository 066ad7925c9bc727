-- ===== src/Prelude/Text/Split.antt =====
-- Splitting a text at a separator, as Python's `str.split(sep)` and Go's `strings.Split` do.
use Prim.Native.Char.{Char, code}
use Prim.Native.String.{String, [], ◌∷◌}
use mathlib.Core.List.{List}
use dt4mob_platform.Prelude.Tests.{◌==◌, if◌then◌else◌}
use Prim.Native.Nat.{ℕ}

abbrev pub push_first : Char → List String → List String
push_first c List.[] = List.◌∷◌ (c ∷ []) List.[]
push_first c (List.◌∷◌ part parts) = List.◌∷◌ (c ∷ part) parts

-- The parts of a text between the separators; there is always one more than there are separators.
unfoldable pub split_on : ℕ → String → List String
split_on sep [] = List.◌∷◌ [] List.[]
split_on sep (c ∷ s) =
    let rest = split_on sep s in if code c == sep then List.◌∷◌ [] rest else push_first c rest
