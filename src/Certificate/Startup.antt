-- ===== src/Certificate/Startup.antt =====
-- services/dt4mob-certificate-service/main.go and k8s/client.go: the roles and the path prefix that
-- `main` settles, the secret it loads and watches, and the handlers as it composes them.
pub mod Routing
pub mod Secrets
pub mod Access
mod Tests
use Prim.Native.Char.{Char, code}
use Prim.Native.String.{◌++◌}
use dt4mob_platform.Prelude.{
  ℕ, leb, ◌==◌, Bool, true, false, not, ◌&&◌, ◌||◌, Option, none, some, List, [], ◌∷◌, keep,
  is_empty, is_some, if◌then◌else◌,
}
use dt4mob_platform.Prelude.Text.{String, lookup, ◌==◌ as str_eq}
use dt4mob_platform.Prelude.Text.Prefix.{cut_prefix, has_prefix, has_suffix, trim_suffix}
use dt4mob_platform.Certificate.Config.{Config}
use dt4mob_platform.Certificate.Auth.{Context, Response, Oidc, auth_middleware, role_middleware}
use dt4mob_platform.Certificate.Handler.{
  TlsCert, Crypto, Draw, IssueInput, IssueOutput, issue_handler,
}

-- unicode.IsSpace, by code point.
abbrev is_space : ℕ → Bool
is_space c =
    (leb 9 c && leb c 13)
    || c == 32
    || c == 0x85
    || c == 0xA0
    || c == 0x1680
    || (leb 0x2000 c && leb c 0x200a)
    || c == 0x2028
    || c == 0x2029
    || c == 0x202f
    || c == 0x205f
    || c == 0x3000

-- `strings.TrimSpace(s) == ""`
unfoldable pub is_blank : String → Bool
is_blank String.[] = true
is_blank (String.◌∷◌ c s) = is_space (code c) && is_blank s

-- `slices.DeleteFunc` and the check behind it; `none` is the exit with status 1.
unfoldable pub settle_roles : List String → Option (List String)
unfolding is_blank
settle_roles roles =
    let filtered = keep (λ s. not (is_blank s)) roles in
    if is_empty filtered then none else some filtered

-- The root handler: the mux itself, or the pattern and the prefix that `http.StripPrefix` removes.
pub data Root : Type 0 where
  direct : Root
  stripped : String → String → Root

unfoldable pub root_handler : String → Root
root_handler prefix =
    if str_eq prefix ""
    then direct
    else stripped (if has_suffix prefix "/" then prefix else prefix ++ "/") (trim_suffix prefix "/")

-- The path that the inner mux sees; `none` is the outer mux's or `StripPrefix`'s 404. A pattern
-- that ends in a slash matches the paths that begin with it.
unfoldable pub inner_path : Root → String → Option String
inner_path direct path = some path
inner_path (stripped pattern strip) path =
    if has_prefix path pattern then cut_prefix path strip else none

-- The data of a secret: a missing key is a nil slice.
pub record Secret : Type 0 where
  pub data_of : List (String × String)

-- watchv1.EventType
pub data EventType : Type 0 where
  added modified deleted bookmark watch_error : EventType

pub record WatchEvent : Type 0 where
  pub type : EventType
  pub object : Secret

-- The filter of `WatchSecret`'s goroutine.
abbrev is_relevant : EventType → Bool
is_relevant added = true
is_relevant modified = true
is_relevant _ = false

module _ (x509_key_pair : String → String → Option TlsCert) (config : Config) where
  pub pair : Option String → Option String → Option TlsCert
  pair none key = none
  pair (some cert) none = none
  pair (some cert) (some key) = x509_key_pair cert key

  -- loadTLSCert
  unfoldable pub load_tls_cert : Secret → Option TlsCert
  unfolding pair
  load_tls_cert secret =
      pair (lookup config.secret_cert_selector secret.data_of)
        (lookup config.secret_key_selector secret.data_of)

  -- `if tlsCert != nil { h.UpdateTLSCert(tlsCert) }`
  abbrev pub update_tls_cert : Option TlsCert → Option TlsCert → Option TlsCert
  update_tls_cert none held = held
  update_tls_cert (some cert) held = some cert

  -- One event of the watch, seen by the loop over the channel.
  pub on_event : Option TlsCert → WatchEvent → Option TlsCert
  on_event held event =
      if is_relevant event.type then update_tls_cert (load_tls_cert event.object) held else held

  watch : Option TlsCert → List WatchEvent → Option TlsCert
  watch held [] = held
  watch held (event ∷ events) = watch (on_event held event) events

  -- The pair in memory after the first read of the secret and the events since.
  unfoldable pub run_secrets : Secret → List WatchEvent → Option TlsCert
  unfolding watch
  run_secrets first events = watch (update_tls_cert (load_tls_cert first) none) events

module _ (oidc : Oidc) (crypto : Crypto) (config : Config) (roles : List String) where
  -- POST /issue behind the two middlewares, in the order of the `UseMiddleware` calls.
  unfoldable pub serve_issue : Draw → Option TlsCert → IssueInput → Context → Response IssueOutput
  serve_issue draw tls_cert input ctx =
      auth_middleware oidc config ctx
        (λ c. role_middleware config roles c (issue_handler crypto config draw tls_cert input))
