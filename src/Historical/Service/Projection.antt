-- ===== src/Historical/Service/Projection.antt =====
-- What the projection of app/services/events_service.py returns.
use mathlib.Core.List.{Perm, flat_map}
use dt4mob_platform.Prelude.{
  ℕ, leb, ◌≡◌, ◌⊎◌, List, true, false, refl, Bool, ◌&&◌, ◌||◌, Option, none, some, ◌++◌, keep,
  Bool-cases, inl, inr, arith,
}
use dt4mob_platform.Prelude.Keep.{keep_congr}
use dt4mob_platform.Prelude.Text.{String, ◌==◌, eq_iff}
use dt4mob_platform.Prelude.Text.Prefix.{has_prefix, cut_prefix}
use dt4mob_platform.Historical.Event.{DittoEvent}
use dt4mob_platform.Json.{Json}
use dt4mob_platform.Historical.Store.{
  thing_id_eq, thing_id_startswith, path_startswith, Store, IsSql, selects, found_in, is_readable,
}
use dt4mob_platform.Historical.Service.{window, when_truthy, or_default, get_jsonpath_projection}
use dt4mob_platform.Historical.Service.Events.{passes, IsPlainPrefix, selects-append, window-ranged}

-- The events whose values a projection reads; the empty thing id stands for every thing.
abbrev pub is_projected : String → ℕ → ℕ → Option String → DittoEvent → Bool
is_projected thing_id since until path_prefix e =
    leb since e.time
    && (leb e.time until
        && ((thing_id == "" || e.thing_id == thing_id) && passes (has_prefix e.path) path_prefix))

regroup : (a b c d : Bool) → (((a && b) && c) && d) ≡ (a && (b && (c && d)))
regroup a b c d = ground arith

module _ {Table : Type 0} (store : Store Table) (sql : IsSql store) (loaded_at : ℕ) where
  selects-thing :
      (thing_id : String) (e : DittoEvent)
      → selects store.like (when_truthy thing_id_eq (some thing_id)) e
        ≡ (thing_id == "" || e.thing_id == thing_id)
  selects-thing thing_id e = ground arith

  pub when_truthy-prefix :
      (prefix : Option String) (e : DittoEvent)
      → IsPlainPrefix prefix
      → selects store.like (when_truthy thing_id_startswith prefix) e
        ≡ passes (has_prefix e.thing_id) prefix
  unfolding cut_prefix
  when_truthy-prefix none e h = refl
  when_truthy-prefix (some p) e h = elim (Bool-cases (p == "")) [
    | inl empty ↦ rw (empty, (eq_iff p "").0 empty) refl
    | inr other ↦ rw other (ground (arith, sql.like_plain p e.thing_id h))
  ]

  selects-path :
      (path_prefix : Option String) (e : DittoEvent)
      → IsPlainPrefix path_prefix
      → selects store.like (when_truthy path_startswith path_prefix) e
        ≡ passes (has_prefix e.path) path_prefix
  unfolding cut_prefix
  selects-path none e h = refl
  selects-path (some p) e h = elim (Bool-cases (p == "")) [
    | inl empty ↦ rw (empty, (eq_iff p "").0 empty) refl
    | inr other ↦ rw other (ground (arith, sql.like_plain p e.path h))
  ]

  selects-projected :
      (thing_id : String) (since until : ℕ) (path_prefix : Option String) (e : DittoEvent)
      → IsPlainPrefix path_prefix
      → selects store.like
          (window since until
            ++ when_truthy thing_id_eq (some thing_id)
            ++ when_truthy path_startswith path_prefix)
          e
        ≡ is_projected thing_id since until path_prefix e
  selects-projected thing_id since until path_prefix e h =
      let things = when_truthy thing_id_eq (some thing_id) in
      let paths = when_truthy path_startswith path_prefix in
      rw
        (
          selects-append store sql loaded_at (window since until ++ things) paths e,
          selects-append store sql loaded_at (window since until) things e,
          window-ranged store sql loaded_at since until e,
          selects-thing thing_id e,
          selects-path path_prefix e h,
        )
        (regroup (leb since e.time) (leb e.time until) (thing_id == "" || e.thing_id == thing_id)
          (passes (has_prefix e.path) path_prefix))

  abbrev pub projected : String → ℕ → Option String → Option ℕ → Table → List DittoEvent
  projected thing_id since path_prefix until t =
      keep (is_projected thing_id since (or_default loaded_at until) path_prefix) (store.rows t)

  abbrev pub readable : String → List DittoEvent → Bool
  readable json_path rows = is_readable store.is_json_path store.json_path_query json_path rows

  -- GET /events/projection/{thing_id} returns what the JSONPath finds in the values of the events of
  -- the thing, in the closed window, under the prefix if one is given, each as often as it is stored,
  -- and nothing else, if the path parses and raises on none of these events; and if not, the exception
  -- of the database escapes it. Without `until` the window ends when the class was loaded.
  -- The prefix must be free of LIKE's special characters.
  -- The store has SQL's laws (IsSql).
  pub get_jsonpath_projection-perm :
      (json_path thing_id : String) (since : ℕ) (path_prefix : Option String) (until : Option ℕ)
      (t : Table)
      → IsPlainPrefix path_prefix
      → ((readable json_path (projected thing_id since path_prefix until t) ≡ true)
          × (found : List Json) × (get_jsonpath_projection store loaded_at json_path thing_id since
                path_prefix until t
              ≡ some found)
          × Perm found (
              flat_map
                (found_in store.json_path_query json_path)
                (projected thing_id since path_prefix until t)))
        ⊎ ((readable json_path (projected thing_id since path_prefix until t) ≡ false)
            × (get_jsonpath_projection store loaded_at json_path thing_id since path_prefix until t
                ≡ none))
  unfolding get_jsonpath_projection
  get_jsonpath_projection-perm json_path thing_id since path_prefix until t h =
      let same =
        keep_congr _ _ (store.rows t)
          (λ e. selects-projected thing_id since (or_default loaded_at until) path_prefix e h) in
      rw (← same) (elim (Bool-cases (readable json_path (keep _ (store.rows t)))) [
        | inl e ↦
            let (found, got, same_values) = sql.projection_rows json_path _ t e in
            inl (e, found, got, same_values)
        | inr e ↦ inr (e, sql.projection_raises json_path _ t e)
      ])
