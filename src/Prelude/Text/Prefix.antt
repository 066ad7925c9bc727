-- ===== src/Prelude/Text/Prefix.antt =====
-- Prefixes and suffixes of texts, as Go's `strings` package has them.
use Prim.Native.Char.{Char, code}
use Prim.Native.String.{String, [], ◌∷◌, ◌++◌}
use mathlib.Core.Path.{◌≡◌, refl, sym, ap, ap₂}
use mathlib.Core.Logic.{inl, inr}
use mathlib.Core.Bool.{Bool, true}
use mathlib.Core.Option.{Option, none, some}
use native.Mathlib.Omega.{arith}
use text.Mathlib.Text.{◌==◌}
use text.Mathlib.TextEquality.{codes_equal, eq_iff}
use text.Mathlib.TextLemmas.{nil-append, cons-append}
use dt4mob_platform.Prelude.Tests.{◌==◌ as eqb, if◌then◌else◌, is_some, Bool-cases}

-- What follows the prefix, if the text has it.
unfoldable pub cut_prefix : String → String → Option String
cut_prefix s [] = some s
cut_prefix [] (d ∷ p) = none
cut_prefix (c ∷ s) (d ∷ p) =
    let rest = cut_prefix s p in if eqb (code c) (code d) then rest else none

-- strings.HasPrefix
abbrev pub has_prefix : String → String → Bool
has_prefix s p = is_some (cut_prefix s p)

abbrev pub or_whole : String → Option String → String
or_whole s none = s
or_whole s (some rest) = rest

-- strings.TrimPrefix
abbrev pub trim_prefix : String → String → String
trim_prefix s p = or_whole s (cut_prefix s p)

same_char : (c d : Char) → (eqb (code c) (code d)) ≡ true → c ≡ d
same_char c d h = codes_equal c d (ground arith)

-- A text is its prefix followed by what `cut_prefix` leaves.
pub cut_prefix-append : (s p : String) {rest : String} → cut_prefix s p ≡ some rest → s ≡ p ++ rest
unfolding cut_prefix
cut_prefix-append s [] h = rw nil-append (cc)
cut_prefix-append [] (d ∷ p) h = cc
cut_prefix-append (c ∷ s) (d ∷ p) h = elim (Bool-cases (eqb (code c) (code d))) [
  | inl same ↦ rw cons-append (ap₂ ◌∷◌ (same_char c d same) (cut_prefix-append s p (rw same at h)))
  | inr other ↦ cc (rw other at h)
]

abbrev prepend : Char → Option String → Option String
prepend c none = none
prepend c (some s) = some (c ∷ s)

-- What precedes the suffix, if the text has it.
unfoldable pub cut_suffix : String → String → Option String
cut_suffix [] p = if p == "" then some "" else none
cut_suffix (c ∷ s) p = let rest = cut_suffix s p in if (c ∷ s) == p then some "" else prepend c rest

-- strings.HasSuffix
abbrev pub has_suffix : String → String → Bool
has_suffix s p = is_some (cut_suffix s p)

-- strings.TrimSuffix
abbrev pub trim_suffix : String → String → String
trim_suffix s p = or_whole s (cut_suffix s p)

pub cut_prefix_self : (p rest : String) → cut_prefix (p ++ rest) p ≡ some rest
unfolding cut_prefix
cut_prefix_self [] rest = ap some (nil-append rest)
cut_prefix_self (c ∷ p) rest = rw cons-append (ground (arith, cut_prefix_self p rest))

whole_suffix : (s p rest : String) → (s == p) ≡ true → some "" ≡ some rest → s ≡ rest ++ p
whole_suffix s p rest e h =
    let same : s ≡ p = (eq_iff s p).0 e in
    let empty : "" ≡ rest = cc h in rw (← empty, same) (sym (nil-append p))

prepend-some :
    (c : Char) (found : Option String) {rest : String}
    → prepend c found ≡ some rest
    → (t : String) × (found ≡ some t) × (rest ≡ c ∷ t)
prepend-some c none h = cc
prepend-some c (some t) h = (t, refl, cc h)

-- A text is what `cut_suffix` leaves, followed by the suffix.
pub cut_suffix-append : (s p : String) {rest : String} → cut_suffix s p ≡ some rest → s ≡ rest ++ p
unfolding cut_suffix
cut_suffix-append [] p {rest} h = elim (Bool-cases ("" == p)) [
  | inl e ↦ whole_suffix "" p rest e (ground (arith, eq_iff "" p, eq_iff p ""))
  | inr e ↦ absurd (ground (arith, eq_iff "" p, eq_iff p ""))
]
cut_suffix-append (c ∷ s) p {rest} h = elim (Bool-cases ((c ∷ s) == p)) [
  | inl e ↦ whole_suffix (c ∷ s) p rest e (rw e at h)
  | inr e ↦
      let (t, found, same) = prepend-some c (cut_suffix s p) (rw e at h) in
      rw (same, cons-append) (ap (λ u. c ∷ u) (cut_suffix-append s p found))
]
