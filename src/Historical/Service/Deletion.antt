-- ===== src/Historical/Service/Deletion.antt =====
-- What deletion and insertion do to the queries of app/services/events_service.py.
use mathlib.Core.List.{Perm}
use mathlib.Core.List.Perm
use dt4mob_platform.Prelude.{
  ℕ, leb, ◌≡◌, refl, ap, sym, ◌∙◌, Bool, not, ◌&&◌, Option, some, List, ◌∷◌, ◌++◌, keep, length,
  arith,
}
use dt4mob_platform.Prelude.Keep.{keep-perm, keep-keep, keep_congr, keep-append}
use dt4mob_platform.Prelude.Text.{String, ◌==◌}
use dt4mob_platform.Historical.Event.{Action, DittoEvent}
use dt4mob_platform.Historical.Store.{Select, thing_id_eq, Store, IsSql, IsNewestFirst, selects}
use dt4mob_platform.Historical.Service.{
  or_default, window, insert_events, delete_events, get_events,
}
use dt4mob_platform.Historical.Service.Events.{is_wanted, IsPlainPrefix, get_events-perm}

-- The events of one thing in a closed window.
abbrev pub in_window : String → ℕ → ℕ → DittoEvent → Bool
in_window thing_id since until e = e.thing_id == thing_id && (leb since e.time && leb e.time until)

and_swap : (a b : Bool) → (a && b) ≡ (b && a)
and_swap a b = ground arith

module _ {Table : Type 0} (store : Store Table) (sql : IsSql store) (loaded_at : ℕ) where
  pub selects-in_window :
      (thing_id : String) (since until : ℕ) (e : DittoEvent)
      → selects store.like (thing_id_eq thing_id ∷ window since until) e
        ≡ in_window thing_id since until e
  selects-in_window thing_id since until e = ground arith

  -- Deletion removes the events of the thing in the closed window, and no other, and returns how
  -- many these were.
  -- The store has SQL's laws (IsSql).
  pub delete_events-perm :
      (thing_id : String) (since until : ℕ) (t : Table)
      → Perm
          (store.rows (delete_events store loaded_at thing_id since until t).1)
          (keep (λ e. not (in_window thing_id since until e)) (store.rows t))
        × ((delete_events store loaded_at thing_id since until t).0
            ≡ length (keep (in_window thing_id since until) (store.rows t)))
  unfolding delete_events
  delete_events-perm thing_id since until t = (
    rw
        (← keep_congr (λ e. not (selects store.like (thing_id_eq thing_id ∷ window since until) e))
          (λ e. not (in_window thing_id since until e)) (store.rows t)
          (λ e. ap not (selects-in_window thing_id since until e)))
        (sql.delete_rows _ t),
    rw
        (← keep_congr (selects store.like (thing_id_eq thing_id ∷ window since until))
          (in_window thing_id since until) (store.rows t) (selects-in_window thing_id since until))
        (sql.delete_count _ t),
  )

  keep_swap :
      (p q : DittoEvent → Bool) (xs : List DittoEvent) → keep p (keep q xs) ≡ keep q (keep p xs)
  keep_swap p q xs =
      keep-keep p q xs
      ∙ keep_congr (λ x. p x && q x) (λ x. q x && p x) xs (λ x. and_swap (p x) (q x))
      ∙ sym (keep-keep q p xs)

  kept_rows :
      (q : Select) (thing_id : String) (since until : ℕ) (t : Table)
      → Perm
          (store.select q (delete_events store loaded_at thing_id since until t).1)
          (keep (λ e. not (in_window thing_id since until e)) (store.select q t))
  kept_rows q thing_id since until t =
      let gone = λ (e : DittoEvent). not (in_window thing_id since until e) in
      let wanted = selects store.like q.where_ in
      let rest = (delete_events-perm thing_id since until t).0 in
      Perm.trans (sql.select_rows q _) (
        Perm.trans (keep-perm wanted rest) (
          rw (keep_swap wanted gone (store.rows t))
            (keep-perm gone (Perm.symm (sql.select_rows q t)))))

  -- After a deletion, GET /events returns what it returned before, whatever its filters are, less
  -- the events of the deleted thing in the closed window of the deletion, each as often as it was
  -- there; and both lists are newest first, so they can differ in the order of one instant only.
  -- The store has SQL's laws (IsSql).
  pub delete_events-get :
      (thing_id : String) (since until : ℕ) (from : ℕ) (to : Option ℕ)
      (thing_id_prefix path_prefix : Option String) (action : Option Action) (limit : Option ℕ)
      (t : Table)
      → Perm
          (get_events store loaded_at from to thing_id_prefix path_prefix action limit
            (delete_events store loaded_at thing_id since until t).1)
          (keep
            (λ e. not (in_window thing_id since until e))
            (get_events store loaded_at from to thing_id_prefix path_prefix action limit t))
        × IsNewestFirst (
            get_events store loaded_at from to thing_id_prefix path_prefix action limit
              (delete_events store loaded_at thing_id since until t).1)
        × IsNewestFirst
            (get_events store loaded_at from to thing_id_prefix path_prefix action limit t)
  unfolding get_events
  delete_events-get thing_id since until from to thing_id_prefix path_prefix action limit t =
      (kept_rows _ thing_id since until t, sql.select_order _ _ refl, sql.select_order _ t refl)

  -- Once POST /events has stored events, GET /events returns those of them that the caller asks for
  -- together with what it returned before, and no other, up to the order of events of one instant.
  -- The prefixes must be free of LIKE's special characters.
  -- The store has SQL's laws (IsSql).
  pub insert_events-get :
      (events : List DittoEvent) (since : ℕ) (until : Option ℕ)
      (thing_id_prefix path_prefix : Option String) (action : Option Action) (limit : Option ℕ)
      (t u : Table)
      → insert_events store loaded_at events t ≡ some u
      → IsPlainPrefix thing_id_prefix
      → IsPlainPrefix path_prefix
      → Perm (get_events store loaded_at since until thing_id_prefix path_prefix action limit u) (
          keep
            (is_wanted since (or_default loaded_at until) thing_id_prefix path_prefix action)
            events
          ++ get_events store loaded_at since until thing_id_prefix path_prefix action limit t)
  unfolding insert_events
  insert_events-get events since until thing_id_prefix path_prefix action limit t u stored h k =
      let wanted =
        is_wanted since (or_default loaded_at until) thing_id_prefix path_prefix action in
      let got = λ (x : Table).
        (get_events-perm store sql loaded_at since until thing_id_prefix path_prefix action limit x
          h k).0 in
      Perm.trans (got u) (
        Perm.trans (keep-perm wanted (sql.insert_rows events t u stored)) (
          rw (keep-append wanted events (store.rows t))
            (Perm.append_left (keep wanted events) (Perm.symm (got t)))))
