-- ===== src/Historical/Bag.antt =====
-- The abstract view of the event table of services/dt4mob-historical-api: what it holds, and how often,
-- with the order of the rows forgotten.
use mathlib.Core.List.{Perm, flat_map}
use mathlib.Core.List.Perm
use mathlib.Core.Bool.{Bool-set}
use mathlib.Core.Quot
use mathlib.Core.Quot.{Quot, Quot-set}
use dt4mob_platform.Prelude.{◌≡◌, Bool, List, ◌++◌, keep, all}
use dt4mob_platform.Prelude.Keep.{keep-perm, all-perm, flat_map-perm}

abbrev pub Bag {ℓ} : Type ℓ → Type ℓ
Bag A = Quot (Perm {A = A})

module _ {ℓ} {A : Type ℓ} where
  abbrev pub bag : List A → Bag A
  bag xs = Quot.mk xs

  pub bag-perm : {xs ys : List A} → Perm xs ys → bag xs ≡ bag ys
  bag-perm h = Quot.sound h

  -- A bag with the items of a list added.
  abbrev pub put : List A → Bag A → Bag A
  put es = Quot.lift Quot-set (λ xs. bag (es ++ xs)) (λ xs ys h. bag-perm (Perm.append_left es h))

  -- The items that pass a test.
  abbrev pub pick : (A → Bool) → Bag A → Bag A
  pick p = Quot.lift Quot-set (λ xs. bag (keep p xs)) (λ xs ys h. bag-perm (keep-perm p h))

module _ {ℓ} {A : Type ℓ} where
  -- Do all items pass a test?
  abbrev pub every : (A → Bool) → Bag A → Bool
  every p = Quot.lift Bool-set (λ xs. all p xs) (λ xs ys h. all-perm p h)

module _ {ℓ κ} {A : Type ℓ} {B : Type κ} where
  -- What a function reads of all items.
  abbrev pub read_all : (A → List B) → Bag A → Bag B
  read_all f =
      Quot.lift Quot-set (λ xs. bag (flat_map f xs)) (λ xs ys h. bag-perm (flat_map-perm f h))
