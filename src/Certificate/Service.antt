-- ===== src/Certificate/Service.antt =====
-- services/dt4mob-certificate-service/main.go: `main` as a whole, from the environment to its servers,
-- and what they answer.
pub mod Running
pub mod Served
mod Tests
use Prim.Native.String.{◌++◌}
use dt4mob_platform.Prelude.{
  Bool, true, false, ◌&&◌, ◌||◌, Option, none, some, List, ℕ, if◌then◌else◌,
}
use dt4mob_platform.Prelude.Text.{String, ◌==◌}
use dt4mob_platform.Prelude.Text.Prefix.{trim_suffix}
use dt4mob_platform.Certificate.Config.{Config}
use dt4mob_platform.Certificate.Auth.{Context, Response, Oidc}
use dt4mob_platform.Certificate.Auth.Verifier.{Library, new_verifier}
use dt4mob_platform.Certificate.Handler.{
  TlsCert, Crypto, Draw, IssueInput, IssueOutput, ready_handler,
}
use dt4mob_platform.Certificate.Startup.{
  settle_roles, Root, root_handler, inner_path, Secret, WatchEvent, run_secrets, serve_issue,
}

-- How `main` gets on: a value, the exit with status 1, or a panic.
pub data Started (A : Type 1) : Type 1 where
  started : A → Started A
  exited : Started A
  panicked : Started A

-- What `main` finds around it: the levels that slog knows, the service account's namespace, whether
-- there is a client of Kubernetes, and the secret of a namespace and a name.
pub record Machine : Type 0 where
  pub is_level : String → Bool
  pub namespace_file : Option String
  pub has_client : Bool
  pub read_secret : String → String → Option Secret

-- The servers, with what their handlers hold.
pub record Service : Type 1 where
  pub config : Config
  pub verifier : Oidc
  pub secret : Secret
  pub root : Root
  pub open_id_connect_url : String

abbrev namespace_of : Machine → Config → Option String
namespace_of machine config =
    if config.namespace == "" then machine.namespace_file else some config.namespace

abbrev with_roles : Config → String → Option (List String) → Option Config
with_roles config namespace none = none
with_roles config namespace (some filtered) =
    some (record config { namespace = namespace; permitted_roles = filtered })

module _ (machine : Machine) (lib : Library) where
  serving : Config → Secret → Option Oidc → Started Service
  serving config secret none = exited
  serving config secret (some verifier) = started (record {
    config = config;
    verifier = verifier;
    secret = secret;
    root = root_handler config.path_prefix;
    open_id_connect_url =
        trim_suffix config.oidc_issuer_uri "/" ++ "/.well-known/openid-configuration";
  })

  loaded : Config → Option Secret → Started Service
  unfolding serving
  loaded config none = exited
  loaded config (some secret) = serving config secret (new_verifier lib config)

  configured : Option Config → Started Service
  unfolding loaded
  configured none = exited
  configured (some config) =
      if machine.has_client
      then loaded config (machine.read_secret config.namespace config.secret_name)
      else panicked

  named : Config → Option String → Started Service
  unfolding configured
  named config none = panicked
  named config (some namespace) =
      configured (with_roles config namespace (settle_roles config.permitted_roles))

  -- `main` up to its servers; the configuration is what `env.Parse` makes of the environment.
  pub start : Option Config → Started Service
  unfolding named
  start none = exited
  start (some config) =
      if machine.is_level config.log_level
      then named config (namespace_of machine config)
      else panicked

-- A request to the public server, with the input that huma decodes from it.
pub record Request : Type 0 where
  pub method : String
  pub path : String
  pub input : IssueInput
  pub ctx : Context

-- The reply of the one operation; anything else is the mux's, or huma's documentation.
pub data Reply : Type 0 where
  issue : Response IssueOutput → Reply
  elsewhere : Reply

module _ (crypto : Crypto) (x509_key_pair : String → String → Option TlsCert)
    (service : Service) where
  -- The pair in memory after the events of the secret's watch.
  abbrev pub held : List WatchEvent → Option TlsCert
  held events = run_secrets x509_key_pair service.config service.secret events

  abbrev route : Draw → List WatchEvent → Request → Option String → Reply
  route draw events request none = elsewhere
  route draw events request (some path) =
      if request.method == "POST" && path == "/issue"
      then issue (
          serve_issue service.verifier crypto service.config service.config.permitted_roles draw
            (held events) request.input request.ctx)
      else elsewhere

  -- The public server.
  pub serve : Draw → List WatchEvent → Request → Reply
  serve draw events request = route draw events request (inner_path service.root request.path)

  -- The management server: the statuses of HealthHandler and ReadyHandler. A pattern with GET takes
  -- HEAD too; `none` is the mux's 404 or 405.
  pub serve_management : List WatchEvent → String → String → Option ℕ
  serve_management events method path =
      if method == "GET" || method == "HEAD"
      then (if path == "/health"
          then some 204
          else (if path == "/ready" then some (ready_handler (held events)) else none))
      else none
