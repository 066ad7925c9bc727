-- ===== src/Prelude/Text/Strip.antt =====
-- Python's `str.rstrip` and `str.strip` with one character.
use Prim.Native.Char.{code}
use Prim.Native.String.{String, [], ◌∷◌, ◌++◌}
use mathlib.Core.Path.{◌≡◌, refl, ap, ◌∙◌}
use mathlib.Core.Logic.{inl, inr}
use mathlib.Core.Bool.{◌&&◌}
use Prim.Native.Nat.{ℕ, zero, suc}
use text.Mathlib.Text.{◌==◌ as str_eq}
use text.Mathlib.TextLemmas.{nil-append, cons-append}
use dt4mob_platform.Prelude.Tests.{◌==◌, if◌then◌else◌, Bool-cases}

unfoldable pub rstrip_slash : String → String
rstrip_slash [] = ""
rstrip_slash (c ∷ s) =
    let rest = rstrip_slash s in if str_eq rest "" && code c == 47 then "" else c ∷ rest

unfoldable pub lstrip_slash : String → String
lstrip_slash [] = ""
lstrip_slash (c ∷ s) = let rest = lstrip_slash s in if code c == 47 then rest else c ∷ s

abbrev pub strip_slash : String → String
strip_slash s = rstrip_slash (lstrip_slash s)

abbrev pub slashes : ℕ → String
slashes zero = ""
slashes (suc n) = "/" ++ slashes n

rstrip_slash-slashes : (n : ℕ) → rstrip_slash (slashes n) ≡ ""
unfolding rstrip_slash
rstrip_slash-slashes zero = refl
rstrip_slash-slashes (suc n) = rw (cons-append, nil-append, rstrip_slash-slashes n) refl

lstrip_slash-slashes : (n : ℕ) → lstrip_slash (slashes n) ≡ ""
unfolding lstrip_slash
lstrip_slash-slashes zero = refl
lstrip_slash-slashes (suc n) = rw (cons-append, nil-append) (lstrip_slash-slashes n)

pub rstrip_slash-append : (s : String) (n : ℕ) → rstrip_slash (s ++ slashes n) ≡ rstrip_slash s
unfolding rstrip_slash
rstrip_slash-append [] n = rw nil-append (rstrip_slash-slashes n)
rstrip_slash-append (c ∷ s) n = rw (cons-append, rstrip_slash-append s n) refl

lstrip_slash-append : (n : ℕ) (s : String) → lstrip_slash (slashes n ++ s) ≡ lstrip_slash s
unfolding lstrip_slash
lstrip_slash-append zero s = ap lstrip_slash (nil-append s)
lstrip_slash-append (suc n) s = rw (cons-append, nil-append, cons-append) (lstrip_slash-append n s)

strip_slash-end : (s : String) (n : ℕ) → strip_slash (s ++ slashes n) ≡ strip_slash s
unfolding rstrip_slash lstrip_slash
strip_slash-end [] n = rw (nil-append, lstrip_slash-slashes n) refl
strip_slash-end (c ∷ s) n = elim (Bool-cases (code c == 47)) [
  | inl e ↦ rw (cons-append, e) (strip_slash-end s n)
  | inr e ↦ rw (cons-append, e, rstrip_slash-append s n) refl
]

-- Slashes at the ends make no difference.
pub strip_slash-slashes :
    (k : ℕ) (s : String) (n : ℕ) → strip_slash (slashes k ++ (s ++ slashes n)) ≡ strip_slash s
strip_slash-slashes k s n =
    ap rstrip_slash (lstrip_slash-append k (s ++ slashes n)) ∙ strip_slash-end s n
