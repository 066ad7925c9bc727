-- ===== src/Certificate/Startup/Routing.antt =====
-- Which paths main.go's root handler serves, and what the inner mux sees of them.
use Prim.Native.String.{◌++◌}
use text.Mathlib.TextLemmas.{append_assoc}
use dt4mob_platform.Prelude.{
  ◌≡◌, ◌≢◌, ◌↔◌, refl, sym, ap, ◌∙◌, inl, inr, Option, none, some, Bool-cases, is_some,
  if◌then◌else◌,
}
use dt4mob_platform.Prelude.Text.{String, eq_iff, ◌==◌}
use dt4mob_platform.Prelude.Text.Prefix.{
  cut_prefix, cut_prefix-append, cut_prefix_self, cut_suffix, cut_suffix-append, or_whole,
  trim_suffix,
}
use dt4mob_platform.Certificate.Startup.{stripped, root_handler, inner_path}

slash_end :
    (prefix : String) (found : Option String)
    → cut_suffix prefix "/" ≡ found
    → (if is_some found then prefix else prefix ++ "/") ≡ or_whole prefix found ++ "/"
slash_end prefix none e = refl
slash_end prefix (some rest) e = cut_suffix-append prefix "/" e

-- The pattern of the outer mux is the stripped prefix with one slash behind it.
root_handler-stripped :
    (prefix : String)
    → prefix ≢ ""
    → root_handler prefix ≡ stripped (trim_suffix prefix "/" ++ "/") (trim_suffix prefix "/")
unfolding root_handler
root_handler-stripped prefix h = elim (Bool-cases (prefix == "")) [
  | inl e ↦ absurd (h ((eq_iff _ _).0 e))
  | inr e ↦ rw e (ap (λ p. stripped p (trim_suffix prefix "/")) (slash_end prefix _ refl))
]

stripped_path :
    (path strip p : String) (found : Option String)
    → cut_prefix path (strip ++ "/") ≡ found
    → (if is_some found then cut_prefix path strip else none) ≡ some p
    → (rest : String) × (path ≡ strip ++ "/" ++ rest) × (p ≡ "/" ++ rest)
stripped_path path strip p none e h = cc
stripped_path path strip p (some rest) e h =
    let split : path ≡ strip ++ "/" ++ rest =
      cut_prefix-append path _ e ∙ append_assoc strip "/" rest in
    let left : cut_prefix path strip ≡ some ("/" ++ rest) =
      rw split (cut_prefix_self strip ("/" ++ rest)) in
    (rest, split, cc (left, h))

stripped_serves :
    (path strip p rest : String)
    → path ≡ strip ++ "/" ++ rest
    → p ≡ "/" ++ rest
    → (if is_some (cut_prefix path (strip ++ "/")) then cut_prefix path strip else none) ≡ some p
stripped_serves path strip p rest split same =
    let whole : path ≡ (strip ++ "/") ++ rest = split ∙ sym (append_assoc strip "/" rest) in
    let matches : cut_prefix path (strip ++ "/") ≡ some rest =
      rw whole (cut_prefix_self (strip ++ "/") rest) in
    let left : cut_prefix path strip ≡ some ("/" ++ rest) =
      rw split (cut_prefix_self strip ("/" ++ rest)) in
    rw (matches, same) left

module _ (prefix path p : String) (given : prefix ≢ "") where
  -- With a path prefix configured, the inner mux sees exactly the requests below the prefix, and
  -- of each the rest of the path from the slash on; whether the prefix is written with its final
  -- slash makes no difference.
  pub inner_path_iff :
      (inner_path (root_handler prefix) path ≡ some p)
      ↔ ((rest : String) × (path ≡ trim_suffix prefix "/" ++ "/" ++ rest) × (p ≡ "/" ++ rest))
  unfolding inner_path
  inner_path_iff = (
    λ h.
        stripped_path path (trim_suffix prefix "/") p _ refl
          (rw (root_handler-stripped prefix given, inner_path) at h),
    λ w.
        rw (root_handler-stripped prefix given, inner_path)
          (stripped_serves path (trim_suffix prefix "/") p w.0 w.1 w.2),
  )
