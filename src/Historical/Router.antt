-- ===== src/Historical/Router.antt =====
-- app/routers/events.py of services/dt4mob-historical-api: the role check and the endpoints, over the
-- methods of EventsService. Authentication is the dependency `auth`, which fastapi_oidc makes.
pub mod Access
pub mod Abstract
pub mod Refines
pub mod Replies
pub mod Routes
pub mod Default
pub mod Tests
use Prim.Native.Char.{Char, code}
use dt4mob_platform.Prelude.{
  ℕ, ◌<◌, leb, ltb, Bool, true, false, not, ◌&&◌, ◌||◌, Option, none, some, List, [], ◌∷◌, any, map,
  ◌==◌, if◌then◌else◌,
}
use dt4mob_platform.Prelude.Int.{ℤ}
use dt4mob_platform.Prelude.Text.{String, lookup, contains, ◌==◌ as str_eq}
use dt4mob_platform.Json.{Json}
use dt4mob_platform.Historical.Event.{Action, DittoEvent, PathResponseObject}
use dt4mob_platform.Historical.Store.{Store, Agg}
use dt4mob_platform.Historical.Service.{
  Bucket, BucketReply, buckets, http_exception, raised, get_available_things,
  get_event_paths_with_action, get_events, get_events_by_thing, insert_events as add_events,
  delete_events as remove_events, get_jsonpath_projection, get_events_custom_time_buckets,
  get_events_custom_time_buckets_with_path,
}

-- app/settings/auth.py
pub record AuthSettings : Type 0 where
  pub client_id : String
  pub audience : String
  pub server_uri : String
  pub issuer : List String
  pub signature_cache_ttl : ℕ
  pub read_role : List String
  pub write_role : List String

pub record ClientResourceAccess : Type 0 where
  pub roles : List String

pub record KeycloakToken : Type 0 where
  pub resource_access : List (String × ClientResourceAccess)

-- What a dependency does: it returns, or raises an HTTPException with a status and a detail.
pub data Checked {ℓ} (A : Type ℓ) : Type ℓ where
  passed : A → Checked A
  refused : ℕ → String → Checked A

abbrev roles_of : Option ClientResourceAccess → Option (List String)
roles_of none = none
roles_of (some access) = some access.roles

abbrev grant : List String → Option (List String) → Checked (Unit {0})
grant roles none = refused 403 "Missing role"
grant roles (some token_roles) =
    if any (contains token_roles) roles then passed tt else refused 403 "Missing role"

abbrev pub check_role : AuthSettings → List String → KeycloakToken → Checked (Unit {0})
check_role settings roles token =
    grant roles (roles_of (lookup settings.client_id token.resource_access))

abbrev check_token : AuthSettings → List String → Checked KeycloakToken → Checked (Unit {0})
check_token settings roles (passed token) = check_role settings roles token
check_token settings roles (refused status detail) = refused status detail

-- What the client gets: a result of an endpoint, an HTTPException, or the status 500 of an exception
-- that nothing catches.
pub data Response : Type 0 where
  things : List String → Response
  paths : List PathResponseObject → Response
  events : List DittoEvent → Response
  created : Response
  no_content : Response
  values : List Json → Response
  bucket_list : List Bucket → Response
  http_error : ℕ → String → Response
  server_error : Response

-- A request that FastAPI has matched to an endpoint, with its parameters.
pub data Request : Type 0 where
  get_things : Option String → Request
  get_paths : String → ℕ → Option ℕ → Request
  get_all : ℕ → Option ℕ → Option String → Option String → Option Action → Request
  get_by_thing : String → ℕ → Option ℕ → Option Action → Option String → Request
  post_events : List DittoEvent → Request
  delete_by_thing : String → ℕ → ℕ → Request
  get_projection : String → ℕ → String → Option ℕ → Option String → Request
  get_time_buckets : String → ℕ → ℕ → String → Option ℤ → Agg → Option String → Request

-- The characters that Python's `str.strip` removes.
abbrev is_space : Char → Bool
is_space c =
    (leb 9 (code c) && leb (code c) 13)
    || (leb 28 (code c) && leb (code c) 32)
    || code c == 133
    || code c == 160
    || code c == 5760
    || (leb 8192 (code c) && leb (code c) 8202)
    || code c == 8232
    || code c == 8233
    || code c == 8239
    || code c == 8287
    || code c == 12288

-- `path_prefix and path_prefix.strip()`
abbrev has_text : String → Bool
has_text String.[] = false
has_text (String.◌∷◌ c s) = not (is_space c) || has_text s

abbrev or_empty : Option String → String
or_empty none = ""
or_empty (some s) = s

-- The values of a projection; its exception is the status 500.
abbrev values_or_error : Option (List Json) → Response
values_or_error none = server_error
values_or_error (some found) = values found

abbrev bucket_response : BucketReply × Bool → Response
bucket_response (buckets bs, rolled_back) = bucket_list bs
bucket_response (http_exception status detail, rolled_back) = http_error status detail
bucket_response (raised, rolled_back) = server_error

module _ {Table : Type 0} (store : Store Table) (loaded_at now : ℕ) where
  -- `if until is None: until = datetime.now()`
  abbrev until_or_now : Option ℕ → ℕ
  until_or_now none = now
  until_or_now (some until) = until

  pub read_available_things : Option String → Table → Response
  read_available_things thing_id_prefix table =
      things (get_available_things store loaded_at thing_id_prefix table)

  pub read_event_paths : String → ℕ → Option ℕ → Table → Response
  read_event_paths thing_id since until table =
      paths (get_event_paths_with_action store loaded_at thing_id since (until_or_now until) table)

  pub read_events : ℕ → Option ℕ → Option String → Option String → Option Action → Table → Response
  read_events since until thing_id_prefix path_prefix action table = events (
      get_events store loaded_at since (some (until_or_now until)) thing_id_prefix path_prefix
        action none table)

  pub read_events_by_thing :
      String → ℕ → Option ℕ → Option Action → Option String → Table → Response
  read_events_by_thing thing_id since until action path_prefix table = events (
      get_events_by_thing store loaded_at thing_id since (some (until_or_now until)) path_prefix
        action table)

  abbrev committed : Table → Option Table → Response × Table
  committed table none = (server_error, table)
  committed table (some stored) = (created, stored)

  pub insert_events : List DittoEvent → Table → Response × Table
  insert_events new table = committed table (add_events store loaded_at new table)

  pub delete_events : String → ℕ → ℕ → Table → Response × Table
  delete_events thing_id since until table =
      (no_content, (remove_events store loaded_at thing_id since until table).1)

  pub read_jsonpath_projection : String → ℕ → String → Option ℕ → Option String → Table → Response
  read_jsonpath_projection json_path since thing_id none path_prefix table =
      values_or_error
        (get_jsonpath_projection store loaded_at json_path thing_id since path_prefix none table)
  read_jsonpath_projection json_path since thing_id (some until) path_prefix table =
      values_or_error (
        get_jsonpath_projection store loaded_at json_path thing_id since path_prefix (some until)
          table)

  abbrev bucket_endpoint :
      Bool → String → ℕ → ℕ → String → Option ℤ → Agg → String → Table → BucketReply × Bool
  bucket_endpoint true json_path since until thing_id bucket_minutes agg prefixes table =
      get_events_custom_time_buckets_with_path store json_path since until prefixes bucket_minutes
        agg (some thing_id) table
  bucket_endpoint false json_path since until thing_id bucket_minutes agg prefixes table =
      get_events_custom_time_buckets store json_path since until bucket_minutes agg (some thing_id)
        table

  pub read_events_custom_time_buckets :
      String → ℕ → ℕ → String → Option ℤ → Agg → Option String → Table → Response
  read_events_custom_time_buckets json_path since until thing_id bucket_minutes agg path_prefix
        table =
      bucket_response (
        bucket_endpoint (has_text (or_empty path_prefix)) json_path since until thing_id
          bucket_minutes agg (or_empty path_prefix) table)

module _ {Table : Type 0} (store : Store Table) (loaded_at now : ℕ) (settings : AuthSettings)
    (auth : String → Checked KeycloakToken) where
  -- The dependency on the endpoint's roles, over that on `auth`; either may raise.
  abbrev pub role_check : List String → String → Checked (Unit {0})
  role_check roles credentials = check_token settings roles (auth credentials)

  abbrev after : Checked (Unit {0}) → Table → Response × Table → Response × Table
  after (passed _) table done = done
  after (refused status detail) table done = (http_error status detail, table)

  abbrev reader : String → Table → Response → Response × Table
  reader credentials table response =
      after (role_check settings.read_role credentials) table (response, table)

  -- The application's answer to a request, and the table that it leaves.
  pub handle : Request → String → Table → Response × Table
  handle (get_things thing_id_prefix) credentials table =
      reader credentials table (read_available_things store loaded_at now thing_id_prefix table)
  handle (get_paths thing_id since until) credentials table =
      reader credentials table (read_event_paths store loaded_at now thing_id since until table)
  handle (get_all since until thing_id_prefix path_prefix action) credentials table =
      reader credentials table
        (read_events store loaded_at now since until thing_id_prefix path_prefix action table)
  handle (get_by_thing thing_id since until action path_prefix) credentials table =
      reader credentials table
        (read_events_by_thing store loaded_at now thing_id since until action path_prefix table)
  handle (post_events new) credentials table =
      after (role_check settings.write_role credentials) table
        (insert_events store loaded_at now new table)
  handle (delete_by_thing thing_id since until) credentials table =
      after (role_check settings.write_role credentials) table
        (delete_events store loaded_at now thing_id since until table)
  handle (get_projection json_path since thing_id until path_prefix) credentials table =
      reader credentials table (
        read_jsonpath_projection store loaded_at now json_path since thing_id until path_prefix
          table)
  handle (get_time_buckets json_path since until thing_id bucket_minutes agg path_prefix)
        credentials table =
      reader credentials table (
        read_events_custom_time_buckets store loaded_at now json_path since until thing_id
          bucket_minutes agg path_prefix table)
