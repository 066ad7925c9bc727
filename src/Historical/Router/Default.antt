-- ===== src/Historical/Router/Default.antt =====
-- The time at which GET /events/projection/{thing_id} stops when its caller gives none.
use mathlib.Core.List.{Perm}
use mathlib.Core.List.Perm
use dt4mob_platform.Prelude.{
  ℕ, ◌<◌, ◌≡◌, refl, ap, false, ◌&&◌, is_some, ◌⊎◌, inl, inr, Option, none, some, List, [], ◌∷◌,
  ◌++◌, keep, All, arith,
}
use dt4mob_platform.Prelude.Keep.{keep-perm, keep-append, flat_map-perm, all-perm}
use dt4mob_platform.Prelude.Text.{String}
use dt4mob_platform.Json.{Json}
use dt4mob_platform.Historical.Event.{DittoEvent}
use dt4mob_platform.Historical.Store.{Store, IsSql, found_in}
use dt4mob_platform.Historical.Service.{insert_events as add_events}
use dt4mob_platform.Historical.Service.Events.{IsPlainPrefix}
use dt4mob_platform.Historical.Service.Projection.{is_projected, get_jsonpath_projection-perm}
use dt4mob_platform.Historical.Router.{values, server_error, read_jsonpath_projection}

is_projected-late :
    (thing_id : String) (since until : ℕ) (path_prefix : Option String) (e : DittoEvent)
    → until < e.time
    → is_projected thing_id since until path_prefix e ≡ false
is_projected-late thing_id since until path_prefix e h = ground arith

keep-late :
    (thing_id : String) (since until : ℕ) (path_prefix : Option String) (es : List DittoEvent)
    → All (λ (e : DittoEvent). until < e.time) es
    → keep (is_projected thing_id since until path_prefix) es ≡ []
keep-late thing_id since until path_prefix [] h = refl
keep-late thing_id since until path_prefix (e ∷ es) (h, hs) =
    rw (is_projected-late thing_id since until path_prefix e h)
      (keep-late thing_id since until path_prefix es hs)

module _ {Table : Type 0} (store : Store Table) (sql : IsSql store) (loaded_at now : ℕ) where
  same_rows :
      (thing_id : String) (since : ℕ) (path_prefix : Option String) (new : List DittoEvent)
      (t u : Table)
      → All (λ (e : DittoEvent). loaded_at < e.time) new
      → add_events store loaded_at new t ≡ some u
      → Perm
          (keep (is_projected thing_id since loaded_at path_prefix) (store.rows u))
          (keep (is_projected thing_id since loaded_at path_prefix) (store.rows t))
  unfolding add_events
  same_rows thing_id since path_prefix new t u late stored =
      let wanted = is_projected thing_id since loaded_at path_prefix in
      rw
        (
          ← (
              ap (λ rows. rows ++ keep wanted (store.rows t))
                (keep-late thing_id since loaded_at path_prefix new late)),
          ← keep-append wanted new (store.rows t),
        )
        (keep-perm wanted (sql.insert_rows new t u stored))

  -- Without `until`, a projection answers with the same values, up to their order, or with status 500
  -- both times, before and after the storing of events later than the load of the class, however late
  -- the request itself is. The prefix must be free of LIKE's special characters.
  -- The store has SQL's laws (IsSql).
  pub read_jsonpath_projection-frozen :
      (json_path : String) (since : ℕ) (thing_id : String) (path_prefix : Option String)
      (new : List DittoEvent) (t u : Table)
      → IsPlainPrefix path_prefix
      → All (λ (e : DittoEvent). loaded_at < e.time) new
      → add_events store loaded_at new t ≡ some u
      → ((before : List Json) × (after : List Json) × (read_jsonpath_projection store loaded_at now
              json_path since thing_id none path_prefix t
            ≡ values before)
          × (read_jsonpath_projection store loaded_at now json_path since thing_id none path_prefix
                u
              ≡ values after)
          × Perm before after)
        ⊎ ((read_jsonpath_projection store loaded_at now json_path since thing_id none path_prefix t
              ≡ server_error)
            × (read_jsonpath_projection store loaded_at now json_path since thing_id none
                  path_prefix u
                ≡ server_error))
  unfolding read_jsonpath_projection
  read_jsonpath_projection-frozen json_path since thing_id path_prefix new t u plain late stored =
      let read = found_in store.json_path_query json_path in
      let same = same_rows thing_id since path_prefix new t u late stored in
      let alike =
        ap (λ b. store.is_json_path json_path && b)
          (all-perm (λ (e : DittoEvent). is_some (store.json_path_query json_path e.value)) same) in
      let got = λ (x : Table).
        get_jsonpath_projection-perm store sql loaded_at json_path thing_id since path_prefix none x
          plain in
      elim (got t) [
        | inl (e, before, old, p) ↦ elim (got u) [
          | inl (_, after, fresh, q) ↦ inl (
            before,
            after,
            rw old refl,
            rw fresh refl,
            Perm.trans p (Perm.trans (Perm.symm (flat_map-perm read same)) (Perm.symm q)),
          )
          | inr (f, _) ↦ cc (e, alike, f)
        ]
        | inr (e, old) ↦ elim (got u) [
          | inl (f, _, _, _) ↦ cc (e, alike, f)
          | inr (_, fresh) ↦ inr (rw old refl, rw fresh refl)
        ]
      ]
