-- ===== src/Historical/Router/Tests.antt =====
-- The endpoints, run on a table of two events with three callers.
use mathlib.Core.List.{Perm}
use dt4mob_platform.Prelude.{◌≡◌, refl, none, some, List, [], ◌∷◌, ◌⊎◌, if◌then◌else◌, arith}
use dt4mob_platform.Prelude.Text.{String, ◌==◌}
use dt4mob_platform.Json.{Json}
use dt4mob_platform.Historical.Event.{create, modified, DittoEvent}
use dt4mob_platform.Historical.Sample.{memory, memory-IsSql}
use dt4mob_platform.Historical.Service.{insert_events}
use dt4mob_platform.Historical.Router.{
  AuthSettings, KeycloakToken, Checked, Response, passed, refused, values, server_error,
  post_events, get_all, delete_by_thing, handle, read_jsonpath_projection,
}
use dt4mob_platform.Historical.Router.Abstract.{Incoming, Trace}
use dt4mob_platform.Historical.Router.Refines.{held, serve, serve-Trace}
use dt4mob_platform.Historical.Router.Access.{HoldsRole, handle-changes}
use dt4mob_platform.Historical.Router.Routes.{IsRouted, jsonpath_projection, first_match-url}
use dt4mob_platform.Historical.Router.Default.{read_jsonpath_projection-frozen}

abbrev settings : AuthSettings
settings = record {
  client_id = "historical";
  audience = "account";
  server_uri = "https://idp";
  issuer = "https://idp" ∷ [];
  signature_cache_ttl = 3600;
  read_role = "historical-read" ∷ [];
  write_role = "historical-write" ∷ [];
}

abbrev reader_token : KeycloakToken
reader_token = record {
  resource_access = ("historical", record { roles = "historical-read" ∷ [] }) ∷ [];
}

abbrev auth : String → Checked KeycloakToken
auth credentials =
    if credentials == "reader" then passed reader_token else refused 401 "Unauthorized"

abbrev stored : DittoEvent
stored = record {
  time = 10;
  thing_id = "org:car";
  action = create;
  revision = some 1;
  path = "/";
  value = Json.null;
}

abbrev later : DittoEvent
later = record {
  time = 30;
  thing_id = "org:car";
  action = modified;
  revision = some 2;
  path = "/";
  value = Json.null;
}

-- A reader may not delete.

handle-changes_example :
    HoldsRole settings auth ("historical-write" ∷ []) "reader"
    ⊎ ((handle memory 25 40 settings auth (delete_by_thing "org:car" 0 20) "reader" (stored ∷ [])).1
        ≡ (stored ∷ []))
handle-changes_example =
    handle-changes memory 25 40 settings auth (delete_by_thing "org:car" 0 20) "reader"
      (stored ∷ [])

read_jsonpath_projection-frozen_example :
    ((before : List Json) × (after : List Json) × (read_jsonpath_projection memory 25 40 "$" 0
          "org:car" none none
          (stored ∷ [])
        ≡ values before)
      × (read_jsonpath_projection memory 25 40 "$" 0 "org:car" none none (later ∷ stored ∷ [])
          ≡ values after)
      × Perm before after)
    ⊎ ((read_jsonpath_projection memory 25 40 "$" 0 "org:car" none none (stored ∷ [])
          ≡ server_error)
        × (read_jsonpath_projection memory 25 40 "$" 0 "org:car" none none (later ∷ stored ∷ [])
            ≡ server_error))
unfolding insert_events memory
read_jsonpath_projection-frozen_example =
    read_jsonpath_projection-frozen memory memory-IsSql 25 40 "$" 0 "org:car" none (later ∷ [])
      (stored ∷ []) (later ∷ stored ∷ []) refl (omega arith, tt) refl

abbrev writer_token : KeycloakToken
writer_token = record {
  resource_access = ("historical", record { roles = "historical-write" ∷ [] }) ∷ [];
}

abbrev auth_both : String → Checked KeycloakToken
auth_both credentials = if credentials == "writer" then passed writer_token else auth credentials

-- An event is posted, a reader looks for it, and fails to delete it.
abbrev session : List Incoming
session =
    (record { now = 31; credentials = "writer"; request = post_events (later ∷ []) })
    ∷ (record { now = 32; credentials = "reader"; request = get_all 0 none none none none })
    ∷ (record { now = 33; credentials = "reader"; request = delete_by_thing "org:car" 0 40 })
    ∷ []

abbrev served : List Response × List DittoEvent
served = serve memory memory-IsSql 25 settings auth_both session (stored ∷ [])

serve-Trace_example :
    Trace memory.is_json_path memory.json_path_query 25 settings auth_both session
      (held memory memory-IsSql 25 settings auth_both (stored ∷ []))
      served.0
      (held memory memory-IsSql 25 settings auth_both served.1)
serve-Trace_example =
    serve-Trace memory memory-IsSql 25 settings auth_both session (stored ∷ [])
      (tt, ((refl, refl), (tt, tt)))

first_match-url_example : IsRouted jsonpath_projection "org:car"
first_match-url_example = first_match-url jsonpath_projection "org:car" (λ e. cc e)
