-- ===== src/Historical/Router/Refines.antt =====
-- The endpoints of app/routers/events.py implement the abstract server of Router/Abstract.
use mathlib.Core.List.{Perm}
use mathlib.Core.List.Perm
use dt4mob_platform.Prelude.{
  ℕ, ◌≡◌, refl, ap, Option, none, some, List, [], ◌∷◌, All, ◌⊎◌, inl, inr, keep, ◌&&◌,
}
use dt4mob_platform.Prelude.Keep.{keep-perm, keep-keep, keep_congr}
use dt4mob_platform.Prelude.Text.{String, ◌==◌}
use dt4mob_platform.Historical.Bag.{Bag, bag, bag-perm, put}
use dt4mob_platform.Historical.Event.{Action, DittoEvent}
use dt4mob_platform.Historical.Store.{
  Store, IsSql, IsDistinct, same_entry, thing_id_eq, thing_id_startswith,
}
use dt4mob_platform.Historical.Service.{
  insert_events as add_events, get_events_by_thing, when_truthy, window, get_available_things,
  get_event_paths_with_action,
}
use dt4mob_platform.Historical.Service.Events.{
  is_wanted, IsPlainPrefix, get_events-perm, get_events_by_thing-perm,
}
use dt4mob_platform.Historical.Service.Deletion.{delete_events-perm, in_window, selects-in_window}
use dt4mob_platform.Historical.Service.Projection.{get_jsonpath_projection-perm, when_truthy-prefix}
use dt4mob_platform.Historical.Router.{
  AuthSettings, KeycloakToken, Checked, Response, created, no_content, server_error, Request,
  get_things, get_paths, get_all, get_by_thing, post_events, delete_by_thing, get_projection,
  get_time_buckets, handle, committed, read_events, read_events_by_thing, insert_events,
  delete_events, read_jsonpath_projection, read_available_things, read_event_paths,
}
use dt4mob_platform.Historical.Router.Access.{needed_roles, IsGuarded, endpoint, handle-IsGuarded}
use dt4mob_platform.Historical.Router.Replies.{endpoint-IsReply}
use dt4mob_platform.Historical.Router.Abstract.{Incoming, IsPlainRequest, Served, Step, Trace}

module _ {Table : Type 0} (store : Store Table) (sql : IsSql store) (loaded_at : ℕ)
    (settings : AuthSettings) (auth : String → Checked KeycloakToken) where
  -- The abstract state, and the abstract end of a request.
  abbrev pub held : Table → Bag DittoEvent
  held table = bag (store.rows table)

  abbrev pub seen : Response × Table → Response × Bag DittoEvent
  seen (response, table) = (response, held table)

  abbrev IsServed : ℕ → Request → Table → Type 0
  IsServed now request table =
      Served store.is_json_path store.json_path_query loaded_at settings auth now request
        (held table) (seen (endpoint store loaded_at now settings auth request table))

  get_all-IsServed :
      (now since : ℕ) (until : Option ℕ) (thing_id_prefix path_prefix : Option String)
      (action : Option Action) (table : Table)
      → IsPlainPrefix thing_id_prefix
      → IsPlainPrefix path_prefix
      → IsServed now (get_all since until thing_id_prefix path_prefix action) table
  unfolding read_events
  get_all-IsServed now since none thing_id_prefix path_prefix action table h k =
      let (same, newest) =
        get_events-perm store sql loaded_at since (some now) thing_id_prefix path_prefix action none
          table h k in
      (_, refl, bag-perm same, newest)
  get_all-IsServed now since (some until) thing_id_prefix path_prefix action table h k =
      let (same, newest) =
        get_events-perm store sql loaded_at since (some until) thing_id_prefix path_prefix action
          none table h k in
      (_, refl, bag-perm same, newest)

  by_thing-perm :
      (thing_id : String) (since until : ℕ) (path_prefix : Option String) (action : Option Action)
      (table : Table)
      → IsPlainPrefix path_prefix
      → Perm
          (get_events_by_thing store loaded_at thing_id since (some until) path_prefix action table)
          (keep
            (λ e. e.thing_id == thing_id && is_wanted since until none path_prefix action e)
            (store.rows table))
  by_thing-perm thing_id since until path_prefix action table k =
      let of_thing = λ (e : DittoEvent). e.thing_id == thing_id in
      let wanted = is_wanted since until none path_prefix action in
      let all_found =
        (get_events-perm store sql loaded_at since (some until) none path_prefix action none table
          refl k).0 in
      Perm.trans
        (get_events_by_thing-perm store sql loaded_at thing_id since (some until) path_prefix action
          table).0
        (rw (← keep-keep of_thing wanted (store.rows table)) (keep-perm of_thing all_found))

  get_by_thing-IsServed :
      (now : ℕ) (thing_id : String) (since : ℕ) (until : Option ℕ) (action : Option Action)
      (path_prefix : Option String) (table : Table)
      → IsPlainPrefix path_prefix
      → IsServed now (get_by_thing thing_id since until action path_prefix) table
  unfolding read_events_by_thing
  get_by_thing-IsServed now thing_id since none action path_prefix table k = (
    _,
    refl,
    bag-perm (by_thing-perm thing_id since now path_prefix action table k),
    (get_events_by_thing-perm store sql loaded_at thing_id since (some now) path_prefix action
        table).1,
  )
  get_by_thing-IsServed now thing_id since (some until) action path_prefix table k = (
    _,
    refl,
    bag-perm (by_thing-perm thing_id since until path_prefix action table k),
    (get_events_by_thing-perm store sql loaded_at thing_id since (some until) path_prefix action
        table).1,
  )

  committed-IsServed :
      (now : ℕ) (new : List DittoEvent) (table : Table) (stored : Option Table)
      → add_events store loaded_at new table ≡ stored
      → (seen (committed store loaded_at now table stored) ≡ (created, put new (held table)))
        ⊎ (seen (committed store loaded_at now table stored) ≡ (server_error, held table))
  unfolding add_events
  committed-IsServed now new table none e = inr refl
  committed-IsServed now new table (some u) e =
      inl (ap (λ (b : Bag DittoEvent). (created, b)) (bag-perm (sql.insert_rows new table u e)))

  get_projection-IsServed :
      (now : ℕ) (json_path : String) (since : ℕ) (thing_id : String) (until : Option ℕ)
      (path_prefix : Option String) (table : Table)
      → IsPlainPrefix path_prefix
      → IsServed now (get_projection json_path since thing_id until path_prefix) table
  unfolding read_jsonpath_projection
  get_projection-IsServed now json_path since thing_id none path_prefix table k =
      elim (get_jsonpath_projection-perm store sql loaded_at json_path thing_id since path_prefix
        none table k) [
          | inl (e, found, got, same) ↦ inl (e, found, rw got refl, bag-perm same)
          | inr (e, raised) ↦ inr (e, rw raised refl)
        ]
  get_projection-IsServed now json_path since thing_id (some until) path_prefix table k =
      elim (get_jsonpath_projection-perm store sql loaded_at json_path thing_id since path_prefix
        (some until) table k) [
          | inl (e, found, got, same) ↦ inl (e, found, rw got refl, bag-perm same)
          | inr (e, raised) ↦ inr (e, rw raised refl)
        ]

  get_things-IsServed :
      (now : ℕ) (thing_id_prefix : Option String) (table : Table)
      → IsPlainPrefix thing_id_prefix
      → IsServed now (get_things thing_id_prefix) table
  unfolding read_available_things get_available_things
  get_things-IsServed now thing_id_prefix table h =
      let same =
        keep_congr _ _ (store.rows table)
          (λ e. when_truthy-prefix store sql loaded_at thing_id_prefix e h) in
      (
        _,
        store.rows table,
        refl,
        refl,
        rw (← same) (sql.things_distinct (when_truthy thing_id_startswith thing_id_prefix) table),
      )

  paths-IsDistinct :
      (thing_id : String) (since until : ℕ) (table : Table)
      → IsDistinct same_entry
          (λ e. (e.path, e.action))
          (store.select_paths (thing_id_eq thing_id ∷ window since until) table)
          (keep (in_window thing_id since until) (store.rows table))
  paths-IsDistinct thing_id since until table =
      rw
        (← keep_congr _ _ (store.rows table)
          (λ e. selects-in_window store sql loaded_at thing_id since until e))
        (sql.paths_distinct (thing_id_eq thing_id ∷ window since until) table)

  get_paths-IsServed :
      (now : ℕ) (thing_id : String) (since : ℕ) (until : Option ℕ) (table : Table)
      → IsServed now (get_paths thing_id since until) table
  unfolding read_event_paths get_event_paths_with_action
  get_paths-IsServed now thing_id since none table =
      (_, store.rows table, refl, refl, paths-IsDistinct thing_id since now table)
  get_paths-IsServed now thing_id since (some until) table =
      (_, store.rows table, refl, refl, paths-IsDistinct thing_id since until table)

  endpoint-IsServed :
      (now : ℕ) (request : Request) (table : Table)
      → IsPlainRequest request
      → IsServed now request table
  unfolding insert_events delete_events
  endpoint-IsServed now (get_things thing_id_prefix) table plain =
      get_things-IsServed now thing_id_prefix table plain
  endpoint-IsServed now (get_paths thing_id since until) table plain =
      get_paths-IsServed now thing_id since until table
  endpoint-IsServed now (get_all since until thing_id_prefix path_prefix action) table (h, k) =
      get_all-IsServed now since until thing_id_prefix path_prefix action table h k
  endpoint-IsServed now (get_by_thing thing_id since until action path_prefix) table k =
      get_by_thing-IsServed now thing_id since until action path_prefix table k
  endpoint-IsServed now (post_events new) table plain =
      committed-IsServed now new table (add_events store loaded_at new table) refl
  endpoint-IsServed now (delete_by_thing thing_id since until) table plain =
      ap (λ (b : Bag DittoEvent). (no_content, b))
        (bag-perm (delete_events-perm store sql loaded_at thing_id since until table).0)
  endpoint-IsServed now (get_projection json_path since thing_id until path_prefix) table k =
      get_projection-IsServed now json_path since thing_id until path_prefix table k
  endpoint-IsServed now (get_time_buckets json_path since until thing_id minutes agg path_prefix)
        table plain =
      (
        _,
        refl,
        endpoint-IsReply store loaded_at now settings auth
            (get_time_buckets json_path since until thing_id minutes agg path_prefix) table,
      )

  Step-seen :
      (i : Incoming) (table : Table) (answer : Response × Table)
      → IsPlainRequest i.request
      → IsGuarded store loaded_at i.now settings auth
          (needed_roles settings i.request)
          i.credentials
          table
          (endpoint store loaded_at i.now settings auth i.request table)
          answer
      → Step store.is_json_path store.json_path_query loaded_at settings auth i
          (held table)
          (seen answer)
  Step-seen i table answer plain (inl (holds, e)) =
      inr (holds, rw e (endpoint-IsServed i.now i.request table plain))
  Step-seen i table answer plain (inr e) = inl (ap seen e)

  abbrev pub handle_incoming : Incoming → Table → Response × Table
  handle_incoming i table = handle store loaded_at i.now settings auth i.request i.credentials table

  pub handle-Step :
      (i : Incoming) (table : Table)
      → IsPlainRequest i.request
      → Step store.is_json_path store.json_path_query loaded_at settings auth i
          (held table)
          (seen (handle_incoming i table))
  handle-Step i table plain =
      Step-seen i table (handle_incoming i table) plain
        (handle-IsGuarded store loaded_at i.now settings auth i.request i.credentials table)

  -- The service, from a table, over the requests that come: its responses, and the table at the end.
  pub serve : List Incoming → Table → List Response × Table
  serve [] table = ([], table)
  serve (i ∷ rest) table =
      let first = handle_incoming i table in
      let later = serve rest first.1 in (first.0 ∷ later.0, later.1)

  -- The service implements the abstract server: whatever requests come, its responses are ones that a
  -- server gives that holds only a bag of events, and checks each caller's roles (Served); and the bag
  -- at the end is that of the table. Of time buckets only the kind of the reply is told. The prefixes
  -- must be free of LIKE's special characters, and the store has SQL's laws (IsSql).
  pub serve-Trace :
      (incoming : List Incoming) (table : Table)
      → All (λ (i : Incoming). IsPlainRequest i.request) incoming
      → Trace store.is_json_path store.json_path_query loaded_at settings auth incoming
          (held table)
          (serve incoming table).0
          (held (serve incoming table).1)
  unfolding serve
  serve-Trace [] table plain = (refl, refl)
  serve-Trace (i ∷ rest) table (plain, plains) =
      let first = handle_incoming i table in
      (
        first.0,
        (serve rest first.1).0,
        held first.1,
        refl,
        handle-Step i table plain,
        serve-Trace rest first.1 plains,
      )
