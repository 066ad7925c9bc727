-- ===== src/Historical/Sample.antt =====
-- A table in memory, on which the tests run the services: a list of events, with SQL's laws proved.
use mathlib.Core.List.{Perm, flat_map}
use mathlib.Core.List.Perm
use dt4mob_platform.Prelude.{
  ℕ, ◌≤◌, leb, ◌≡◌, refl, Bool, true, any, ap, not, some, none, List, [], ◌∷◌, ◌++◌, keep, length,
  if◌then◌else◌, Bool-cases, inl, inr, arith,
}
use dt4mob_platform.Prelude.Text.{String, ◌==◌ as str_eq, eq_iff}
use dt4mob_platform.Prelude.Text.Prefix.{has_prefix}
use dt4mob_platform.Historical.Event.{
  Action, modified, create, delete, merged, DittoEvent, same_action,
}
use dt4mob_platform.Historical.Store.{
  Store, IsSql, selects, IsNewestFirst, bucket_rows, same_entry, no_repeat, is_readable, found_in,
}

-- Insertion sort, with the newest event first.
insert_newest : DittoEvent → List DittoEvent → List DittoEvent
insert_newest e [] = e ∷ []
insert_newest e (f ∷ fs) =
    let rest = insert_newest e fs in if leb f.time e.time then e ∷ f ∷ fs else f ∷ rest

sort_newest : List DittoEvent → List DittoEvent
sort_newest [] = []
sort_newest (e ∷ es) = insert_newest e (sort_newest es)

insert_newest-perm : (e : DittoEvent) (fs : List DittoEvent) → Perm (insert_newest e fs) (e ∷ fs)
unfolding insert_newest
insert_newest-perm e [] = Perm.rfl
insert_newest-perm e (f ∷ fs) = elim (Bool-cases (leb f.time e.time)) [
  | inl newer ↦ rw newer Perm.rfl
  | inr older ↦ rw older (Perm.trans (Perm.cons f (insert_newest-perm e fs)) (Perm.swap e f fs))
]

sort_newest-perm : (es : List DittoEvent) → Perm (sort_newest es) es
unfolding sort_newest
sort_newest-perm [] = Perm.rfl
sort_newest-perm (e ∷ es) =
    Perm.trans (insert_newest-perm e (sort_newest es)) (Perm.cons e (sort_newest-perm es))

IsNewestFirst-tail :
    (f : DittoEvent) (fs : List DittoEvent) → IsNewestFirst (f ∷ fs) → IsNewestFirst fs
IsNewestFirst-tail f [] h = tt
IsNewestFirst-tail f (g ∷ fs) (h, hs) = hs

-- An event in front, if the first of the list is not newer.
abbrev IsAtMost : ℕ → List DittoEvent → Type 0
IsAtMost t [] = Unit {0}
IsAtMost t (f ∷ fs) = f.time ≤ t

cons-IsNewestFirst :
    (f : DittoEvent) (fs : List DittoEvent)
    → IsAtMost f.time fs
    → IsNewestFirst fs
    → IsNewestFirst (f ∷ fs)
cons-IsNewestFirst f [] h hs = tt
cons-IsNewestFirst f (g ∷ fs) h hs = (h, hs)

head-IsAtMost :
    (f : DittoEvent) (fs : List DittoEvent) → IsNewestFirst (f ∷ fs) → IsAtMost f.time fs
head-IsAtMost f [] h = tt
head-IsAtMost f (g ∷ fs) (h, hs) = h

insert_newest-IsAtMost :
    (t : ℕ) (e : DittoEvent) (fs : List DittoEvent)
    → e.time ≤ t
    → IsAtMost t fs
    → IsAtMost t (insert_newest e fs)
unfolding insert_newest
insert_newest-IsAtMost t e [] h k = h
insert_newest-IsAtMost t e (f ∷ fs) h k = elim (Bool-cases (leb f.time e.time)) [
  | inl newer ↦ rw newer h
  | inr older ↦ rw older k
]

insert_newest-IsNewestFirst :
    (e : DittoEvent) (fs : List DittoEvent) → IsNewestFirst fs → IsNewestFirst (insert_newest e fs)
unfolding insert_newest
insert_newest-IsNewestFirst e [] h = tt
insert_newest-IsNewestFirst e (f ∷ fs) h = elim (Bool-cases (leb f.time e.time)) [
  | inl newer ↦ rw newer (cons-IsNewestFirst e (f ∷ fs) (ground arith) h)
  | inr older ↦ rw older (
      cons-IsNewestFirst f (insert_newest e fs)
        (insert_newest-IsAtMost f.time e fs (ground arith) (head-IsAtMost f fs h))
        (insert_newest-IsNewestFirst e fs (IsNewestFirst-tail f fs h)))
]

sort_newest-IsNewestFirst : (es : List DittoEvent) → IsNewestFirst (sort_newest es)
unfolding sort_newest
sort_newest-IsNewestFirst [] = tt
sort_newest-IsNewestFirst (e ∷ es) =
    insert_newest-IsNewestFirst e (sort_newest es) (sort_newest-IsNewestFirst es)

distinct : {A : Type 0} → (A → A → Bool) → (DittoEvent → A) → List DittoEvent → List A
distinct same column [] = []
distinct same column (e ∷ es) =
    let rest = distinct same column es in
    if any (same (column e)) rest then rest else column e ∷ rest

module _ {A : Type 0} (same : A → A → Bool)
    (congruent : (a b c : A) → same a b ≡ true → same a c ≡ same b c) where
  any_congr : (a b : A) (xs : List A) → same a b ≡ true → any (same a) xs ≡ any (same b) xs
  any_congr a b [] h = refl
  any_congr a b (x ∷ xs) h = rw (congruent a b x h, any_congr a b xs h) refl

  distinct-any :
      (column : DittoEvent → A) (a : A) (es : List DittoEvent)
      → any (same a) (distinct same column es) ≡ any (λ e. same a (column e)) es
  unfolding distinct
  distinct-any column a [] = refl
  distinct-any column a (e ∷ es) =
      let rest = distinct-any column a es in
      let found = any_congr a (column e) (distinct same column es) in ground (arith, rest, found)

  distinct-no_repeat :
      (column : DittoEvent → A) (es : List DittoEvent)
      → no_repeat same (distinct same column es) ≡ true
  unfolding distinct
  distinct-no_repeat column [] = refl
  distinct-no_repeat column (e ∷ es) =
      let rest = distinct-no_repeat column es in ground (arith, rest)

same_id : (a b c : String) → str_eq a b ≡ true → str_eq a c ≡ str_eq b c
same_id a b c h = ap (λ x. str_eq x c) ((eq_iff a b).0 h)

same_actions : (a b c : Action) → same_action a b ≡ true → same_action a c ≡ same_action b c
same_actions modified modified c h = refl
same_actions create create c h = refl
same_actions delete delete c h = refl
same_actions merged merged c h = refl
same_actions modified create c h = cc h
same_actions modified delete c h = cc h
same_actions modified merged c h = cc h
same_actions create modified c h = cc h
same_actions create delete c h = cc h
same_actions create merged c h = cc h
same_actions delete modified c h = cc h
same_actions delete create c h = cc h
same_actions delete merged c h = cc h
same_actions merged modified c h = cc h
same_actions merged create c h = cc h
same_actions merged delete c h = cc h

same_entries : (a b c : String × Action) → same_entry a b ≡ true → same_entry a c ≡ same_entry b c
same_entries (p, a) (q, b) (r, c) h =
    rw (same_id p q r (ground arith), same_actions a b c (ground arith)) refl

abbrev starts_like : String → String → Bool
starts_like p text = has_prefix text p

unfoldable pub memory : Store (List DittoEvent)
unfolding sort_newest insert_newest distinct
memory = record {
  like = starts_like;
  rows = λ t. t;
  select = λ q t. sort_newest (keep (selects starts_like q.where_) t);
  select_things =
      λ c t. distinct str_eq (λ (e : DittoEvent). e.thing_id) (keep (selects starts_like c) t);
  select_paths = λ c t.
      distinct same_entry (λ (e : DittoEvent). (e.path, e.action)) (keep (selects starts_like c) t);
  is_json_path = λ path. str_eq path "$";
  json_path_query = λ path value. some (value ∷ []);
  select_projection = λ path c t.
      (let rows = keep (selects starts_like c) t in
        if is_readable (λ p. str_eq p "$") (λ p v. some (v ∷ [])) path rows
        then some (flat_map (found_in (λ p v. some (v ∷ [])) path) rows)
        else none);
  select_buckets = λ q t. bucket_rows [];
  isoformat = λ t. "1970-01-01T00:00:00";
  delete_where =
      λ c t. (length (keep (selects starts_like c) t), keep (λ e. not (selects starts_like c e)) t);
  insert_all = λ es t. some (es ++ t);
}

some_rows : {A : Type 0} {x y : A} → some x ≡ some y → x ≡ y
some_rows h = cc h

pub memory-IsSql : IsSql memory
unfolding memory
memory-IsSql = record {
  like_plain = λ p text h. refl;
  select_rows = λ q t. sort_newest-perm (keep (selects starts_like q.where_) t);
  select_order = λ q t h. sort_newest-IsNewestFirst (keep (selects starts_like q.where_) t);
  things_distinct = λ c t. (
    λ a. distinct-any str_eq same_id (λ e. e.thing_id) a (keep (selects starts_like c) t),
    distinct-no_repeat str_eq same_id (λ e. e.thing_id) (keep (selects starts_like c) t),
  );
  paths_distinct = λ c t. (
    λ a.
        distinct-any same_entry same_entries (λ e. (e.path, e.action)) a
          (keep (selects starts_like c) t),
    distinct-no_repeat same_entry same_entries (λ e. (e.path, e.action))
        (keep (selects starts_like c) t),
  );
  projection_rows = λ path c t h. (_, rw h refl, Perm.rfl);
  projection_raises = λ path c t h. rw h refl;
  delete_rows = λ c t. Perm.rfl;
  delete_count = λ c t. refl;
  insert_rows = λ es t u h. rw (some_rows h) Perm.rfl;
}
