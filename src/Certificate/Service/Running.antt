-- ===== src/Certificate/Service/Running.antt =====
-- What the service that `main` of main.go starts is made of.
use mathlib.Core.Path.{subst}
use dt4mob_platform.Prelude.{◌≡◌, refl, Bool, true, false, Option, none, some, List, if◌then◌else◌}
use dt4mob_platform.Prelude.Text.{String}
use dt4mob_platform.Certificate.Config.{Config}
use dt4mob_platform.Certificate.Auth.{Oidc}
use dt4mob_platform.Certificate.Auth.Verifier.{Library, new_verifier}
use dt4mob_platform.Certificate.Startup.{settle_roles, root_handler, Secret}
use dt4mob_platform.Certificate.Service.{
  Started, started, exited, panicked, Machine, Service, namespace_of, with_roles, serving, loaded,
  configured, named, start,
}

-- What a service that serves has been made of.
pub record IsRunning (machine : Machine) (lib : Library) (read : Config) (s : Service)
    : Type 1 where
  pub namespace : namespace_of machine read ≡ some s.config.namespace
  pub roles : settle_roles read.permitted_roles ≡ some s.config.permitted_roles
  pub rest :
      s.config
      ≡ record read { namespace = s.config.namespace; permitted_roles = s.config.permitted_roles }
  pub secret : machine.read_secret s.config.namespace s.config.secret_name ≡ some s.secret
  pub verifier : new_verifier lib s.config ≡ some s.verifier
  pub root : s.root ≡ root_handler s.config.path_prefix

module _ (machine : Machine) (lib : Library) where
  abbrev Holds : (Service → Type 1) → Started Service → Type 1
  Holds P (started s) = P s
  Holds P exited = Unit {1}
  Holds P panicked = Unit {1}

  Holds-if :
      (b : Bool) (P : Service → Type 1) (x y : Started Service)
      → Holds P x
      → Holds P y
      → Holds P (if b then x else y)
  Holds-if true P x y h k = h
  Holds-if false P x y h k = k

  module _ (read : Config) where
    abbrev AsRead : Config → Type 0
    AsRead config =
        (namespace_of machine read ≡ some config.namespace)
        × (settle_roles read.permitted_roles ≡ some config.permitted_roles)
        × (config ≡ record read {
          namespace = config.namespace;
          permitted_roles = config.permitted_roles;
        })

    serving-IsRunning :
        (config : Config) (secret : Secret) (found : Option Oidc)
        → AsRead config
        → machine.read_secret config.namespace config.secret_name ≡ some secret
        → new_verifier lib config ≡ found
        → Holds (IsRunning machine lib read) (serving machine lib config secret found)
    unfolding serving
    serving-IsRunning config secret none as_read known made = tt
    serving-IsRunning config secret (some verifier) (namespace, roles, rest) known made = record {
      namespace = namespace;
      roles = roles;
      rest = rest;
      secret = known;
      verifier = made;
      root = refl;
    }

    loaded-IsRunning :
        (config : Config) (found : Option Secret)
        → AsRead config
        → machine.read_secret config.namespace config.secret_name ≡ found
        → Holds (IsRunning machine lib read) (loaded machine lib config found)
    unfolding loaded
    loaded-IsRunning config none as_read e = tt
    loaded-IsRunning config (some secret) as_read e =
        serving-IsRunning config secret _ as_read e refl

    configured-IsRunning :
        (namespace : String) (roles : Option (List String))
        → namespace_of machine read ≡ some namespace
        → settle_roles read.permitted_roles ≡ roles
        → Holds
            (IsRunning machine lib read)
            (configured machine lib (with_roles read namespace roles))
    unfolding configured
    configured-IsRunning namespace none e f = tt
    configured-IsRunning namespace (some filtered) e f =
        Holds-if machine.has_client (IsRunning machine lib read)
          (loaded machine lib (record read { namespace = namespace; permitted_roles = filtered })
            (machine.read_secret namespace read.secret_name))
          panicked (loaded-IsRunning _ _ (e, f, refl) refl) tt

    named-IsRunning :
        (namespace : Option String)
        → namespace_of machine read ≡ namespace
        → Holds (IsRunning machine lib read) (named machine lib read namespace)
    unfolding named
    named-IsRunning none e = tt
    named-IsRunning (some namespace) e = configured-IsRunning namespace _ e refl

    start-Holds : Holds (IsRunning machine lib read) (start machine lib (some read))
    unfolding start
    start-Holds =
        Holds-if (machine.is_level read.log_level) (IsRunning machine lib read)
          (named machine lib read (namespace_of machine read)) panicked (named-IsRunning _ refl) tt

    -- A service that serves has the configuration that it read, with its namespace and its roles
    -- that are not blank, the secret of that namespace, and the verifier and the root handler that
    -- this configuration makes.
    pub start-IsRunning :
        (s : Service) → start machine lib (some read) ≡ started s → IsRunning machine lib read s
    start-IsRunning s h = subst (Holds (IsRunning machine lib read)) h start-Holds
