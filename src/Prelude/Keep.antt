-- ===== src/Prelude/Keep.antt =====
-- The selection of a list by a Boolean test: `WHERE` on a table, seen as a list of rows.
use mathlib.Core.Logic.{∥∥₁_map}
use mathlib.Core.Bool.{Bool-set}
use mathlib.Core.List.{Perm, Permᴰ, flat_map}
use mathlib.Core.List.Permᴰ
use dt4mob_platform.Prelude.{
  ◌+◌, ◌≡◌, refl, Bool, true, false, not, ◌&&◌, List, [], ◌∷◌, ◌++◌, keep, length, All, all, ◌∙◌,
  append_assoc, arith, if◌then◌else◌, Bool-cases, inl, inr,
}

module _ {ℓ} {A : Type ℓ} where
  cons-if :
      (b : Bool) (x : A) {xs ys : List A}
      → Permᴰ xs ys
      → Permᴰ (if b then x ∷ xs else xs) (if b then x ∷ ys else ys)
  cons-if true x h = Permᴰ.cons refl h
  cons-if false x h = h

  swap-if :
      (b c : Bool) (x y : A) (l : List A)
      → Permᴰ
          (if b then x ∷ (if c then y ∷ l else l) else (if c then y ∷ l else l))
          (if c then y ∷ (if b then x ∷ l else l) else (if b then x ∷ l else l))
  swap-if true true x y l = Permᴰ.swap refl refl
  swap-if true false x y l = Permᴰ.refl _
  swap-if false true x y l = Permᴰ.refl _
  swap-if false false x y l = Permᴰ.refl _

  keep-permᴰ : (p : A → Bool) {xs ys : List A} → Permᴰ xs ys → Permᴰ (keep p xs) (keep p ys)
  keep-permᴰ p Permᴰ.nil = Permᴰ.nil
  keep-permᴰ p (Permᴰ.cons {a} {b} e h) = rw e (cons-if (p b) b (keep-permᴰ p h))
  keep-permᴰ p (Permᴰ.swap {a} {b} {a'} {b'} {l} e f) =
      rw (e, f) (swap-if (p b') (p a') b' a' (keep p l))
  keep-permᴰ p (Permᴰ.trans h k) = Permᴰ.trans (keep-permᴰ p h) (keep-permᴰ p k)

  pub keep-perm : (p : A → Bool) {xs ys : List A} → Perm xs ys → Perm (keep p xs) (keep p ys)
  keep-perm p h = ∥∥₁_map h (keep-permᴰ p)

  all-permᴰ : (p : A → Bool) {xs ys : List A} → Permᴰ xs ys → all p xs ≡ all p ys
  all-permᴰ p Permᴰ.nil = refl
  all-permᴰ p (Permᴰ.cons {a} {b} e h) = rw (e, all-permᴰ p h) refl
  all-permᴰ p (Permᴰ.swap {a} {b} {a'} {b'} {l} e f) = rw (e, f) (ground arith)
  all-permᴰ p (Permᴰ.trans h k) = all-permᴰ p h ∙ all-permᴰ p k

  pub all-perm : (p : A → Bool) {xs ys : List A} → Perm xs ys → all p xs ≡ all p ys
  all-perm p h = ∥∥₁_rec (Bool-set _ _) (all-permᴰ p) h

  pub keep-append : (p : A → Bool) (xs ys : List A) → keep p (xs ++ ys) ≡ keep p xs ++ keep p ys
  keep-append p [] ys = refl
  keep-append p (x ∷ xs) ys = ground (arith, keep-append p xs ys)

  pub keep-keep : (p q : A → Bool) (xs : List A) → keep p (keep q xs) ≡ keep (λ x. p x && q x) xs
  keep-keep p q [] = refl
  keep-keep p q (x ∷ xs) = ground (arith, keep-keep p q xs)

  pub keep_congr : (p q : A → Bool) (xs : List A) → ((x : A) → p x ≡ q x) → keep p xs ≡ keep q xs
  keep_congr p q [] h = refl
  keep_congr p q (x ∷ xs) h = ground (arith, h x, keep_congr p q xs h)

  pub keep-none : (p : A → Bool) (xs : List A) → ((x : A) → p x ≡ false) → keep p xs ≡ []
  keep-none p [] h = refl
  keep-none p (x ∷ xs) h = rw (h x) (keep-none p xs h)

  pub All-keep : (p : A → Bool) (xs : List A) → All (λ x. p x ≡ true) (keep p xs)
  All-keep p [] = tt
  All-keep p (x ∷ xs) = elim (Bool-cases (p x)) [
    | inl e ↦ rw e (e, All-keep p xs)
    | inr e ↦ rw e (All-keep p xs)
  ]

  -- What passes and what does not make up the list.
  pub length-keep_split :
      (p : A → Bool) (xs : List A)
      → length xs ≡ length (keep p xs) + length (keep (λ x. not (p x)) xs)
  length-keep_split p [] = omega arith
  length-keep_split p (x ∷ xs) = ground (arith, length-keep_split p xs)

module _ {ℓ} {A : Type ℓ} where
  swap_blocks : (us vs ws : List A) → Permᴰ (us ++ (vs ++ ws)) (vs ++ (us ++ ws))
  swap_blocks us vs ws =
      rw (← append_assoc us vs ws, ← append_assoc vs us ws)
        (Permᴰ.append_right ws (Permᴰ.append_comm us vs))

  -- Two blocks in front of a list change places.
  pub swap_blocks-perm : (us vs ws : List A) → Perm (us ++ (vs ++ ws)) (vs ++ (us ++ ws))
  swap_blocks-perm us vs ws = ∣ swap_blocks us vs ws ∣₁

module _ {ℓ κ} {A : Type ℓ} {B : Type κ} (f : A → List B) where
  flat_map-permᴰ : {xs ys : List A} → Permᴰ xs ys → Permᴰ (flat_map f xs) (flat_map f ys)
  unfolding flat_map
  flat_map-permᴰ Permᴰ.nil = Permᴰ.nil
  flat_map-permᴰ (Permᴰ.cons {a} {b} e h) = rw e (Permᴰ.append_left (f b) (flat_map-permᴰ h))
  flat_map-permᴰ (Permᴰ.swap {a} {b} {a'} {b'} {l} e h) =
      rw (e, h) (swap_blocks (f b') (f a') (flat_map f l))
  flat_map-permᴰ (Permᴰ.trans h k) = Permᴰ.trans (flat_map-permᴰ h) (flat_map-permᴰ k)

  pub flat_map-perm : {xs ys : List A} → Perm xs ys → Perm (flat_map f xs) (flat_map f ys)
  flat_map-perm h = ∥∥₁_map h flat_map-permᴰ
