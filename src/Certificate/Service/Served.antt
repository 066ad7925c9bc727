-- ===== src/Certificate/Service/Served.antt =====
-- What stands behind each certificate that the service of main.go hands out.
use Prim.Native.String.{◌++◌}
use dt4mob_platform.Prelude.{
  ◌≡◌, ◌≢◌, sym, ap, ◌∙◌, ◌⊎◌, inl, inr, true, not, ◌&&◌, Option, none, some, List, [], arith,
  Bool-cases,
}
use dt4mob_platform.Prelude.Text.{String, lookup, contains, ◌==◌, eq_iff}
use dt4mob_platform.Prelude.Text.Prefix.{trim_suffix}
use dt4mob_platform.Certificate.Config.{Config}
use dt4mob_platform.Certificate.Auth.{Claims, Response, success}
use dt4mob_platform.Certificate.Auth.Access.{IsAuthenticated, is_permitted}
use dt4mob_platform.Certificate.Auth.Verifier.{Library}
use dt4mob_platform.Certificate.Auth.Verifier.Issuers.{IsLibrary, IsTrusted, verified-IsTrusted}
use dt4mob_platform.Certificate.Handler.{TlsCert, Crypto, Draw, IssueOutput}
use dt4mob_platform.Certificate.Handler.Issue.{IsIssued}
use dt4mob_platform.Certificate.Startup.{
  is_blank, root_handler, inner_path, WatchEvent, serve_issue,
}
use dt4mob_platform.Certificate.Startup.Access.{serve_issue-success, settle_roles-eq-some}
use dt4mob_platform.Certificate.Startup.Routing.{inner_path_iff}
use dt4mob_platform.Certificate.Service.{
  started, Machine, Service, start, Request, issue, held, route, serve,
}
use dt4mob_platform.Certificate.Service.Running.{start-IsRunning}

-- The path of the one operation: below the prefix, if there is one.
abbrev pub IsIssuePath : String → String → Type 0
IsIssuePath prefix path =
    ((prefix ≡ "") × (path ≡ "/issue"))
    ⊎ ((prefix ≢ "") × (path ≡ trim_suffix prefix "/" ++ "/issue"))

inner_path-IsIssuePath :
    (prefix path : String)
    → inner_path (root_handler prefix) path ≡ some "/issue"
    → IsIssuePath prefix path
unfolding inner_path root_handler
inner_path-IsIssuePath prefix path h = elim (Bool-cases (prefix == "")) [
  | inl e ↦ inl ((eq_iff prefix "").0 e, cc (rw e at h))
  | inr e ↦
      let named : prefix ≢ "" = λ same. cc (e, (eq_iff prefix "").1 same) in
      let (rest, split, whole) = (inner_path_iff prefix path "/issue" named).0 h in
      inr (named, rw whole split)
]

module _ (crypto : Crypto) (x509_key_pair : String → String → Option TlsCert) (s : Service)
    (draw : Draw) (events : List WatchEvent) (request : Request) where
  routed :
      (path : Option String) {r : Response IssueOutput}
      → route crypto x509_key_pair s draw events request path ≡ issue r
      → (path ≡ some "/issue")
        × (request.method ≡ "POST")
        × (serve_issue s.verifier crypto s.config s.config.permitted_roles draw
              (held crypto x509_key_pair s events)
              request.input
              request.ctx
            ≡ r)
  routed none h = cc h
  routed (some path) h = ground (arith, eq_iff request.method "POST", eq_iff path "/issue")

-- What stands behind a certificate of the running service: a POST to the operation's path, with a
-- verified token of a trusted issuer, whose roles at this service hold the admin role or a permitted
-- one, which is not blank and was read from the environment; and a CA that the secret has offered.
pub record IsCertified (crypto : Crypto) (x509_key_pair : String → String → Option TlsCert)
    (read : Config) (s : Service) (draw : Draw) (events : List WatchEvent) (request : Request)
    (out : IssueOutput) : Type 0 where
  pub posted : request.method ≡ "POST"
  pub addressed : IsIssuePath s.config.path_prefix request.path
  pub claims : Claims
  pub authenticated : IsAuthenticated s.verifier s.config request.ctx claims
  pub trusted : IsTrusted s.config claims
  pub permitted :
      is_permitted s.config s.config.permitted_roles
        (lookup s.config.oidc_client_id claims.resource_access)
      ≡ true
  pub some_roles : s.config.permitted_roles ≢ []
  pub roles :
      (role : String)
      → contains s.config.permitted_roles role
        ≡ (contains read.permitted_roles role && not (is_blank role))
  pub issued :
      IsIssued crypto s.config draw
        (held crypto x509_key_pair s events)
        request.input
        (record request.ctx { claims = some claims })
        out

module _ (machine : Machine) (lib : Library) (laws : IsLibrary lib) (crypto : Crypto)
    (x509_key_pair : String → String → Option TlsCert) (read : Config) (s : Service)
    (running : start machine lib (some read) ≡ started s) where
  -- The service that `main` starts hands out a certificate only for what `IsCertified` says: a POST to
  -- the path below the configured prefix, with a bearer token that verifies and whose issuer the
  -- configuration trusts, for a caller with the admin role or a permitted role, of which at least
  -- one is configured and none is blank; and it is then issued as `IsIssued` says, with the CA pair
  -- in memory after the events of the watch. The OIDC library keeps its documentation (IsLibrary).
  pub serve-IsCertified :
      (draw : Draw) (events : List WatchEvent) (request : Request) (out : IssueOutput)
      → serve crypto x509_key_pair s draw events request ≡ issue (success out)
      → IsCertified crypto x509_key_pair read s draw events request out
  unfolding serve
  serve-IsCertified draw events request out h =
      let r = start-IsRunning machine lib read s running in
      let (path, posted, answer) =
        routed crypto x509_key_pair s draw events request (inner_path s.root request.path) h in
      let (claims, authenticated, permitted, issued) =
        serve_issue-success s.verifier crypto s.config s.config.permitted_roles draw
          (held crypto x509_key_pair s events) request.input request.ctx answer in
      let (filled, same) =
        settle_roles-eq-some read.permitted_roles s.config.permitted_roles r.roles in
      record {
        posted = posted;
        addressed =
            inner_path-IsIssuePath s.config.path_prefix request.path
              (ap (λ root. inner_path root request.path) (sym r.root) ∙ path);
        claims = claims;
        authenticated = authenticated;
        trusted =
            verified-IsTrusted lib laws s.config s.verifier request.ctx claims r.verifier
              authenticated;
        permitted = permitted;
        some_roles = filled;
        roles = same;
        issued = issued;
      }
