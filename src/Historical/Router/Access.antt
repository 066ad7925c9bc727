-- ===== src/Historical/Router/Access.antt =====
-- Who may do what through the endpoints of app/routers/events.py.
use dt4mob_platform.Prelude.{
  ℕ, ◌≡◌, refl, ap, true, Option, none, some, List, any, ◌⊎◌, inl, inr, Bool-cases,
}
use dt4mob_platform.Prelude.Text.{String, lookup, contains}
use dt4mob_platform.Historical.Store.{Store}
use dt4mob_platform.Historical.Router.{
  AuthSettings, ClientResourceAccess, KeycloakToken, Checked, passed, refused, Response, http_error,
  Request, get_things, get_paths, get_all, get_by_thing, post_events, delete_by_thing,
  get_projection, get_time_buckets, role_check, after, handle, read_available_things,
  read_event_paths, read_events, read_events_by_thing, insert_events, delete_events,
  read_jsonpath_projection, read_events_custom_time_buckets,
}

module _ (settings : AuthSettings) (auth : String → Checked KeycloakToken) where
  -- The credentials are a token that gives one of the roles for the application's client.
  abbrev pub HoldsRole : List String → String → Type 0
  HoldsRole roles credentials =
      (token : KeycloakToken) × (access : ClientResourceAccess) × (auth credentials ≡ passed token)
      × (lookup settings.client_id token.resource_access ≡ some access)
      × (any (contains access.roles) roles ≡ true)

  -- The answer to credentials that do not do: that of the authentication, or status 403.
  abbrev refusal_of : Checked KeycloakToken → Response
  refusal_of (passed token) = http_error 403 "Missing role"
  refusal_of (refused status detail) = http_error status detail

  abbrev pub refusal : String → Response
  refusal credentials = refusal_of (auth credentials)

-- The roles of which a request needs one.
abbrev pub needed_roles : AuthSettings → Request → List String
needed_roles settings (post_events new) = settings.write_role
needed_roles settings (delete_by_thing thing_id since until) = settings.write_role
needed_roles settings _ = settings.read_role

module _ {Table : Type 0} (store : Store Table) (loaded_at now : ℕ) (settings : AuthSettings)
    (auth : String → Checked KeycloakToken) where
  abbrev pub IsGuarded : List String → String → Table → Response × Table → Response × Table → Type 0
  IsGuarded roles credentials table done answer =
      (HoldsRole settings auth roles credentials × (answer ≡ done))
      ⊎ (answer ≡ (refusal settings auth credentials, table))

  IsGuarded-access :
      (roles : List String) (credentials : String) (table : Table) (done : Response × Table)
      (token : KeycloakToken) (access : Option ClientResourceAccess)
      → auth credentials ≡ passed token
      → lookup settings.client_id token.resource_access ≡ access
      → IsGuarded roles credentials table done (
          after store loaded_at now settings auth
            (role_check store loaded_at now settings auth roles credentials)
            table
            done)
  IsGuarded-access roles credentials table done token none h k = inr (rw (h, k) refl)
  IsGuarded-access roles credentials table done token (some access) h k =
      elim (Bool-cases (any (contains access.roles) roles)) [
        | inl held ↦ inl ((token, access, h, k, held), rw (h, k, held) refl)
        | inr lacks ↦ inr (rw (h, k, lacks) refl)
      ]

  IsGuarded-auth :
      (roles : List String) (credentials : String) (table : Table) (done : Response × Table)
      (checked : Checked KeycloakToken)
      → auth credentials ≡ checked
      → IsGuarded roles credentials table done (
          after store loaded_at now settings auth
            (role_check store loaded_at now settings auth roles credentials)
            table
            done)
  IsGuarded-auth roles credentials table done (passed token) h =
      IsGuarded-access roles credentials table done token _ h refl
  IsGuarded-auth roles credentials table done (refused status detail) h = inr (rw h refl)

  weaken :
      (roles : List String) (credentials : String) (table : Table) (done answer : Response × Table)
      → IsGuarded roles credentials table done answer
      → HoldsRole settings auth roles credentials
        ⊎ (answer ≡ (refusal settings auth credentials, table))
  weaken roles credentials table done answer (inl h) = inl h.0
  weaken roles credentials table done answer (inr h) = inr h

  -- What the endpoint of a request does for a caller with a role.
  abbrev pub endpoint : Request → Table → Response × Table
  endpoint (get_things thing_id_prefix) table =
      (read_available_things store loaded_at now thing_id_prefix table, table)
  endpoint (get_paths thing_id since until) table =
      (read_event_paths store loaded_at now thing_id since until table, table)
  endpoint (get_all since until thing_id_prefix path_prefix action) table =
      (read_events store loaded_at now since until thing_id_prefix path_prefix action table, table)
  endpoint (get_by_thing thing_id since until action path_prefix) table = (
    read_events_by_thing store loaded_at now thing_id since until action path_prefix table,
    table,
  )
  endpoint (post_events new) table = insert_events store loaded_at now new table
  endpoint (delete_by_thing thing_id since until) table =
      delete_events store loaded_at now thing_id since until table
  endpoint (get_projection json_path since thing_id until path_prefix) table = (
    read_jsonpath_projection store loaded_at now json_path since thing_id until path_prefix table,
    table,
  )
  endpoint (get_time_buckets json_path since until thing_id bucket_minutes agg path_prefix) table =
      (
        read_events_custom_time_buckets store loaded_at now json_path since until thing_id
            bucket_minutes agg path_prefix table,
        table,
      )

  pub handle-IsGuarded :
      (request : Request) (credentials : String) (table : Table)
      → IsGuarded
          (needed_roles settings request)
          credentials
          table
          (endpoint request table)
          (handle store loaded_at now settings auth request credentials table)
  unfolding handle
  handle-IsGuarded (get_things thing_id_prefix) credentials table =
      IsGuarded-auth _ credentials table _ _ refl
  handle-IsGuarded (get_paths thing_id since until) credentials table =
      IsGuarded-auth _ credentials table _ _ refl
  handle-IsGuarded (get_all since until thing_id_prefix path_prefix action) credentials table =
      IsGuarded-auth _ credentials table _ _ refl
  handle-IsGuarded (get_by_thing thing_id since until action path_prefix) credentials table =
      IsGuarded-auth _ credentials table _ _ refl
  handle-IsGuarded (post_events new) credentials table = IsGuarded-auth _ credentials table _ _ refl
  handle-IsGuarded (delete_by_thing thing_id since until) credentials table =
      IsGuarded-auth _ credentials table _ _ refl
  handle-IsGuarded (get_projection json_path since thing_id until path_prefix) credentials table =
      IsGuarded-auth _ credentials table _ _ refl
  handle-IsGuarded (get_time_buckets json_path since until thing_id bucket_minutes agg path_prefix)
        credentials table =
      IsGuarded-auth _ credentials table _ _ refl

  -- A request is answered only to a token with a role that it needs: every other caller gets the
  -- refusal of the authentication, or status 403, and the table stays as it was.
  pub handle-HoldsRole :
      (request : Request) (credentials : String) (table : Table)
      → HoldsRole settings auth (needed_roles settings request) credentials
        ⊎ (handle store loaded_at now settings auth request credentials table
            ≡ (refusal settings auth credentials, table))
  handle-HoldsRole request credentials table =
      weaken (needed_roles settings request) credentials table (endpoint request table) _
        (handle-IsGuarded request credentials table)

  stays :
      (checked : Checked (Unit {0})) (table : Table) (response : Response)
      → (after store loaded_at now settings auth checked table (response, table)).1 ≡ table
  stays (passed _) table response = refl
  stays (refused status detail) table response = refl

  refused_same :
      (roles : List String) (credentials : String) (table : Table) (answer : Response × Table)
      → HoldsRole settings auth roles credentials
        ⊎ (answer ≡ (refusal settings auth credentials, table))
      → HoldsRole settings auth roles credentials ⊎ (answer.1 ≡ table)
  refused_same roles credentials table answer (inl h) = inl h
  refused_same roles credentials table answer (inr h) = inr (ap (λ (a : Response × Table). a.1) h)

  -- Only a token with a write role changes the table, whatever the request is.
  pub handle-changes :
      (request : Request) (credentials : String) (table : Table)
      → HoldsRole settings auth settings.write_role credentials
        ⊎ ((handle store loaded_at now settings auth request credentials table).1 ≡ table)
  unfolding handle
  handle-changes (get_things thing_id_prefix) credentials table = inr (stays _ table _)
  handle-changes (get_paths thing_id since until) credentials table = inr (stays _ table _)
  handle-changes (get_all since until thing_id_prefix path_prefix action) credentials table =
      inr (stays _ table _)
  handle-changes (get_by_thing thing_id since until action path_prefix) credentials table =
      inr (stays _ table _)
  handle-changes (get_projection json_path since thing_id until path_prefix) credentials table =
      inr (stays _ table _)
  handle-changes (get_time_buckets json_path since until thing_id bucket_minutes agg path_prefix)
        credentials table =
      inr (stays _ table _)
  handle-changes (post_events new) credentials table =
      refused_same _ _ _ _ (handle-HoldsRole (post_events new) credentials table)
  handle-changes (delete_by_thing thing_id since until) credentials table =
      refused_same _ _ _ _
        (handle-HoldsRole (delete_by_thing thing_id since until) credentials table)
