-- ===== src/Historical/Service/Events.antt =====
-- What the two event queries of app/services/events_service.py return.
use mathlib.Core.List.{Perm}
use mathlib.Core.List.Perm
use dt4mob_platform.Prelude.{
  ℕ, leb, ◌≡◌, refl, Bool, true, ◌&&◌, Option, none, some, List, [], ◌∷◌, ◌++◌, keep, arith,
}
use dt4mob_platform.Prelude.Keep.{keep-perm, keep-keep, keep_congr}
use dt4mob_platform.Prelude.Text.{String, ◌==◌}
use dt4mob_platform.Prelude.Text.Prefix.{has_prefix}
use dt4mob_platform.Historical.Event.{Action, DittoEvent, same_action}
use dt4mob_platform.Historical.Store.{
  Cond, thing_id_eq, thing_id_startswith, path_startswith, action_eq, Store, IsSql, selects, holds,
  is_plain, IsNewestFirst,
}
use dt4mob_platform.Historical.Service.{
  when_given, or_default, window, get_events, get_events_by_thing,
}

-- A filter that is not given lets every event pass.
abbrev pub passes {ℓ} : {A : Type ℓ} → (A → Bool) → Option A → Bool
passes p none = true
passes p (some a) = p a

-- A prefix filter, where one is given, has no character that LIKE reads specially.
abbrev pub IsPlainPrefix : Option String → Type 0
IsPlainPrefix prefix = passes is_plain prefix ≡ true

-- The events that a caller asks for: in the closed window, and past each filter that is given.
abbrev pub is_wanted : ℕ → ℕ → Option String → Option String → Option Action → DittoEvent → Bool
is_wanted since until thing_id_prefix path_prefix action e =
    leb since e.time
    && (leb e.time until
        && (passes (has_prefix e.thing_id) thing_id_prefix
            && (passes (has_prefix e.path) path_prefix && passes (same_action e.action) action)))

regroup : (a b c d f : Bool) → ((((a && b) && c) && d) && f) ≡ (a && (b && (c && (f && d))))
regroup a b c d f = ground arith

swap_filters : (i w p a : Bool) → (((i && w) && p) && a) ≡ (i && ((w && a) && p))
swap_filters i w p a = ground arith

module _ {Table : Type 0} (store : Store Table) (sql : IsSql store) (loaded_at : ℕ) where
  when_given-prefix :
      (cond : String → Cond) (text : DittoEvent → String)
      → ((p : String) (e : DittoEvent) → holds store.like (cond p) e ≡ store.like p (text e))
      → (prefix : Option String) (e : DittoEvent) → IsPlainPrefix prefix
      → selects store.like (when_given cond prefix) e ≡ passes (has_prefix (text e)) prefix
  when_given-prefix cond text means none e plain = refl
  when_given-prefix cond text means (some p) e plain =
      ground (arith, means p e, sql.like_plain p (text e) plain)

  when_given-action :
      (action : Option Action) (e : DittoEvent)
      → selects store.like (when_given action_eq action) e ≡ passes (same_action e.action) action
  when_given-action none e = refl
  when_given-action (some a) e = ground arith

  pub selects-append :
      (c d : List Cond) (e : DittoEvent)
      → selects store.like (c ++ d) e ≡ (selects store.like c e && selects store.like d e)
  selects-append [] d e = refl
  selects-append (x ∷ c) d e = ground (arith, selects-append c d e)

  abbrev ranged : ℕ → ℕ → DittoEvent → Bool
  ranged since until e = leb since e.time && leb e.time until

  pub window-ranged :
      (since until : ℕ) (e : DittoEvent)
      → selects store.like (window since until) e ≡ ranged since until e
  window-ranged since until e = ground arith

  selects-wanted :
      (since until : ℕ) (thing_id_prefix path_prefix : Option String) (action : Option Action)
      (e : DittoEvent)
      → IsPlainPrefix thing_id_prefix
      → IsPlainPrefix path_prefix
      → selects store.like
          (window since until
            ++ when_given thing_id_startswith thing_id_prefix
            ++ when_given action_eq action
            ++ when_given path_startswith path_prefix)
          e
        ≡ is_wanted since until thing_id_prefix path_prefix action e
  selects-wanted since until thing_id_prefix path_prefix action e h k =
      let things = when_given thing_id_startswith thing_id_prefix in
      let actions = when_given action_eq action in
      let paths = when_given path_startswith path_prefix in
      rw
        (
          selects-append (window since until ++ things ++ actions) paths e,
          selects-append (window since until ++ things) actions e,
          selects-append (window since until) things e,
          window-ranged since until e,
          when_given-prefix thing_id_startswith (λ x. x.thing_id) (λ p x. refl) thing_id_prefix e h,
          when_given-prefix path_startswith (λ x. x.path) (λ p x. refl) path_prefix e k,
          when_given-action action e,
        )
        (regroup (leb since e.time) (leb e.time until)
          (passes (has_prefix e.thing_id) thing_id_prefix) (passes (same_action e.action) action)
          (passes (has_prefix e.path) path_prefix))

  -- GET /events returns the stored events that the caller asks for, each as often as it is stored,
  -- and no other, with the newest first. The prefixes must be free of LIKE's special characters.
  -- The store has SQL's laws (IsSql).
  pub get_events-perm :
      (since : ℕ) (until : Option ℕ) (thing_id_prefix path_prefix : Option String)
      (action : Option Action) (limit : Option ℕ) (t : Table)
      → IsPlainPrefix thing_id_prefix
      → IsPlainPrefix path_prefix
      → Perm (get_events store loaded_at since until thing_id_prefix path_prefix action limit t) (
          keep
            (is_wanted since (or_default loaded_at until) thing_id_prefix path_prefix action)
            (store.rows t))
        × IsNewestFirst
            (get_events store loaded_at since until thing_id_prefix path_prefix action limit t)
  unfolding get_events
  get_events-perm since until thing_id_prefix path_prefix action limit t h k = (
    rw
        (← keep_congr _ _ (store.rows t) (λ e.
          selects-wanted since (or_default loaded_at until) thing_id_prefix path_prefix action e h
            k))
        (sql.select_rows _ t),
    sql.select_order _ t refl,
  )

  abbrev wanted_conds : ℕ → Option ℕ → Option String → Option Action → List Cond
  wanted_conds since until path_prefix action =
      window since (or_default loaded_at until)
      ++ when_given thing_id_startswith none
      ++ when_given action_eq action
      ++ when_given path_startswith path_prefix

  by_thing-selects :
      (thing_id : String) (since until : ℕ) (path_prefix : Option String) (action : Option Action)
      (e : DittoEvent)
      → selects store.like
          ((thing_id_eq thing_id ∷ window since until)
            ++ when_given path_startswith path_prefix
            ++ when_given action_eq action)
          e
        ≡ (e.thing_id == thing_id
            && selects store.like
                (window since until
                  ++ when_given thing_id_startswith none
                  ++ when_given action_eq action
                  ++ when_given path_startswith path_prefix)
                e)
  by_thing-selects thing_id since until path_prefix action e =
      let actions = when_given action_eq action in
      let paths = when_given path_startswith path_prefix in
      rw
        (
          selects-append ((thing_id_eq thing_id ∷ window since until) ++ paths) actions e,
          selects-append (thing_id_eq thing_id ∷ window since until) paths e,
          selects-append (window since until ++ [] ++ actions) paths e,
          selects-append (window since until ++ []) actions e,
        )
        (swap_filters (e.thing_id == thing_id) (selects store.like (window since until) e)
          (selects store.like paths e) (selects store.like actions e))

  -- GET /events/{thing_id} returns, up to the order of events of one instant, what GET /events
  -- returns of that thing; whatever the filters are.
  -- The store has SQL's laws (IsSql).
  pub get_events_by_thing-perm :
      (thing_id : String) (since : ℕ) (until : Option ℕ) (path_prefix : Option String)
      (action : Option Action) (t : Table)
      → Perm (get_events_by_thing store loaded_at thing_id since until path_prefix action t) (
          keep
            (λ e. e.thing_id == thing_id)
            (get_events store loaded_at since until none path_prefix action none t))
        × IsNewestFirst
            (get_events_by_thing store loaded_at thing_id since until path_prefix action t)
  unfolding get_events get_events_by_thing
  get_events_by_thing-perm thing_id since until path_prefix action t =
      let same_rows =
        keep_congr _ _ (store.rows t) (λ e.
          by_thing-selects thing_id since (or_default loaded_at until) path_prefix action e) in
      let of_thing = keep-perm (λ (e : DittoEvent). e.thing_id == thing_id) (sql.select_rows _ t) in
      (
        Perm.trans (sql.select_rows _ t) (
            rw
              (
                same_rows,
                ← keep-keep (λ (e : DittoEvent). e.thing_id == thing_id)
                    (selects store.like (wanted_conds since until path_prefix action))
                    (store.rows t),
              )
              (Perm.symm of_thing)),
        sql.select_order _ t refl,
      )
