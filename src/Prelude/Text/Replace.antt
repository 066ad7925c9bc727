-- ===== src/Prelude/Text/Replace.antt =====
-- Python's `str.replace`, which replaces every occurrence from the left.
use Prim.Native.Char.{Char, code}
use Prim.Native.String.{String, [], ◌∷◌, ◌++◌}
use mathlib.Core.Path.{◌≡◌, refl, ap, ap₂, ◌∙◌}
use mathlib.Core.Logic.{inl, inr}
use mathlib.Core.Bool.{Bool, true, false, not, ◌&&◌, ◌||◌}
use mathlib.Core.List.{List}
use native.Mathlib.Omega.{arith}
use Prim.Native.Nat.{ℕ, zero, suc, ◌≤◌}
use text.Mathlib.TextLemmas.{nil-append, cons-append, append_assoc}
use dt4mob_platform.Prelude.Tests.{◌==◌, if◌then◌else◌, Bool-cases, is_some}
use dt4mob_platform.Prelude.Text.Prefix.{has_prefix, cut_prefix, cut_prefix_self}

abbrev pub text_length : String → ℕ
text_length [] = 0
text_length (c ∷ s) = suc (text_length s)

-- Python's `sep.join(parts)`
abbrev pub join : String → List String → String
join sep List.[] = ""
join sep (List.◌∷◌ part List.[]) = part
join sep (List.◌∷◌ part (List.◌∷◌ next parts)) = part ++ (sep ++ join sep (List.◌∷◌ next parts))

-- Does the character with this code not occur?
abbrev pub lacks : ℕ → String → Bool
lacks n [] = true
lacks n (c ∷ s) = not (code c == n) && lacks n s

module _ (first : Char) (others new : String) where
  abbrev here : Char → String → Bool
  here c s = has_prefix (c ∷ s) (first ∷ others)

  -- The rest of a scan after `skip` characters of an occurrence that is replaced.
  unfoldable pub scan : String → ℕ → String
  scan [] skip = ""
  scan (c ∷ s) zero =
      let after = scan s in if here c s then new ++ after (text_length others) else c ∷ after 0
  scan (c ∷ s) (suc skip) = scan s skip

  -- The replacement of a text, given as its first character and the others.
  abbrev pub replace : String → String
  replace s = scan s 0

  -- Is there an occurrence?
  unfoldable pub occurs : String → Bool
  occurs [] = false
  occurs (c ∷ s) = here c s || occurs s

  -- Does it occur in none of those?
  abbrev pub all_absent : List String → Bool
  all_absent List.[] = true
  all_absent (List.◌∷◌ part parts) = not (occurs part) && all_absent parts

  -- Without one, nothing changes.
  replace-absent : (s : String) → occurs s ≡ false → replace s ≡ s
  unfolding scan occurs
  replace-absent [] h = refl
  replace-absent (c ∷ s) h = elim (Bool-cases (here c s)) [
    | inl e ↦ cc (rw e at h)
    | inr e ↦ let rest = replace-absent s (rw e at h) in rw (e, rest) refl
  ]

  -- Within an occurrence, the scan only counts.
  scan-skips : (s rest : String) → scan (s ++ rest) (text_length s) ≡ scan rest 0
  unfolding scan
  scan-skips [] rest = ap (λ t. scan t 0) (nil-append rest)
  scan-skips (c ∷ s) rest = rw cons-append (scan-skips s rest)

  has_prefix-length : (s p : String) → has_prefix s p ≡ true → text_length p ≤ text_length s
  unfolding cut_prefix
  has_prefix-length s [] h = omega arith
  has_prefix-length [] (d ∷ p) h = cc h
  has_prefix-length (c ∷ s) (d ∷ p) h = elim (Bool-cases (code c == code d)) [
    | inl same ↦ let le = has_prefix-length s p (rw same at h) in omega (arith, le)
    | inr other ↦ cc (rw other at h)
  ]

  -- No occurrence ends within another: one that starts in a text before it ends there too.
  has_prefix-straddle :
      (s p after : String)
      → lacks (code first) p ≡ true
      → has_prefix (s ++ ((first ∷ others) ++ after)) p ≡ has_prefix s p
  unfolding cut_prefix
  has_prefix-straddle s [] after h = refl
  has_prefix-straddle [] (d ∷ p) after h = rw (nil-append, cons-append) (ground arith)
  has_prefix-straddle (c ∷ s) (d ∷ p) after h =
      let rest = has_prefix-straddle s p after (ground arith) in
      rw cons-append (ground (arith, rest))

  here_self : (after : String) → here first (others ++ after) ≡ true
  here_self after =
      let cut = cut_prefix_self (first ∷ others) after in ap is_some (rw cons-append at cut)

  module _ (alone : lacks (code first) others ≡ true) where
    here-straddle :
        (c : Char) (s after : String) → here c (s ++ ((first ∷ others) ++ after)) ≡ here c s
    unfolding cut_prefix
    here-straddle c s after =
        let rest = has_prefix-straddle s others after alone in ground (arith, rest)

    -- If its first character occurs once in it, each occurrence is replaced, and what precedes it and
    -- what follows it are scanned by themselves.
    scan-occurrence :
        (before after : String) (skip : ℕ)
        → skip ≤ text_length before
        → scan (before ++ ((first ∷ others) ++ after)) skip
          ≡ scan before skip ++ (new ++ replace after)
    unfolding scan
    scan-occurrence [] after (suc skip) h = absurd (omega arith)
    scan-occurrence [] after zero h =
        rw (nil-append, nil-append, cons-append, here_self after, scan-skips others after) refl
    scan-occurrence (c ∷ before) after (suc skip) h =
        rw cons-append (scan-occurrence before after skip (omega arith))
    scan-occurrence (c ∷ before) after zero h = elim (Bool-cases (here c before)) [
      | inl e ↦
          let fits = has_prefix-length (c ∷ before) (first ∷ others) e in
          let later = scan-occurrence before after (text_length others) (omega (arith, fits)) in
          rw (cons-append c before _, here-straddle c before after, e, later, append_assoc) refl
      | inr e ↦
          let later = scan-occurrence before after 0 (omega arith) in
          rw (cons-append c before _, here-straddle c before after, e, later, cons-append) refl
    ]

    -- The parts between the occurrences are kept, and each occurrence is replaced.
    pub replace-join :
        (parts : List String)
        → all_absent parts ≡ true
        → replace (join (first ∷ others) parts) ≡ join new parts
    unfolding scan
    replace-join List.[] h = refl
    replace-join (List.◌∷◌ part List.[]) h = replace-absent part (ground arith)
    replace-join (List.◌∷◌ part (List.◌∷◌ next parts)) h =
        scan-occurrence part (join (first ∷ others) (List.◌∷◌ next parts)) 0 (omega arith)
        ∙ ap₂ (λ p rest. p ++ (new ++ rest)) (replace-absent part (ground arith))
            (replace-join (List.◌∷◌ next parts) (ground arith))
