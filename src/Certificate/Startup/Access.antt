-- ===== src/Certificate/Startup/Access.antt =====
-- The certificate service as a whole: who gets a certificate, and which roles may ask for one.
use dt4mob_platform.Prelude.{
  ◌≡◌, ◌≢◌, refl, Bool, true, false, not, ◌&&◌, Option, none, some, List, [], ◌∷◌, keep, is_empty,
  arith, if◌then◌else◌,
}
use dt4mob_platform.Prelude.Text.{String, lookup, contains, eq_iff}
use dt4mob_platform.Certificate.Config.{Config}
use dt4mob_platform.Certificate.Auth.{Claims, Context, Response, success, Oidc}
use dt4mob_platform.Certificate.Auth.Access.{
  IsAuthenticated, is_permitted, auth_middleware-success, role_middleware-eq,
}
use dt4mob_platform.Certificate.Handler.{
  TlsCert, Crypto, Draw, IssueInput, IssueOutput, issue_handler,
}
use dt4mob_platform.Certificate.Handler.Issue.{IsIssued, issue_handler-success}
use dt4mob_platform.Certificate.Startup.{is_blank, settle_roles, serve_issue}

success_of_if :
    {A : Type 0} (allowed : Bool) (reply other : Response A) {a : A}
    → other ≢ success a
    → (if allowed then reply else other) ≡ success a
    → (allowed ≡ true) × (reply ≡ success a)
success_of_if true reply other apart h = (refl, h)
success_of_if false reply other apart h = absurd (apart h)

-- POST /issue returns a certificate only to a request whose bearer token the verifier accepts, from
-- a trusted issuer, whose roles at this service hold the admin role or a permitted one; and the
-- handler has then established `IsIssued` for the claims of that token.
pub serve_issue-success :
    (oidc : Oidc) (crypto : Crypto) (config : Config) (roles : List String) (draw : Draw)
    (tls_cert : Option TlsCert) (input : IssueInput) (ctx : Context) {out : IssueOutput}
    → serve_issue oidc crypto config roles draw tls_cert input ctx ≡ success out
    → (claims : Claims) × IsAuthenticated oidc config ctx claims
      × (is_permitted config roles (lookup config.oidc_client_id claims.resource_access) ≡ true)
      × IsIssued crypto config draw tls_cert input (record ctx { claims = some claims }) out
unfolding serve_issue
serve_issue-success oidc crypto config roles draw tls_cert input ctx h =
    let (claims, authenticated, passed) = auth_middleware-success oidc config ctx _ h in
    let inside : Context = record ctx { claims = some claims } in
    let (allowed, issued) =
      success_of_if _ _ _ (λ e. cc e)
        (rw
          (role_middleware-eq config inside (issue_handler crypto config draw tls_cert input) roles
            claims refl)
          at passed) in
    (
      claims,
      authenticated,
      allowed,
      issue_handler-success crypto config draw input tls_cert inside issued,
    )

contains-keep :
    (roles : List String) (r : String)
    → contains (keep (λ s. not (is_blank s)) roles) r ≡ (contains roles r && not (is_blank r))
contains-keep [] r = refl
contains-keep (x ∷ roles) r = ground (arith, eq_iff x r, contains-keep roles r)

kept_of :
    (filtered kept : List String)
    → (if is_empty filtered then none else some filtered) ≡ some kept
    → (kept ≢ []) × (filtered ≡ kept)
kept_of [] kept h = cc
kept_of (x ∷ filtered) kept h = ((λ e. cc (e, h)), cc h)

-- The service starts only with at least one permitted role, and its permitted roles are then those
-- of the configuration that are not blank.
pub settle_roles-eq-some :
    (roles kept : List String)
    → settle_roles roles ≡ some kept
    → (kept ≢ []) × ((r : String) → contains kept r ≡ (contains roles r && not (is_blank r)))
unfolding settle_roles
settle_roles-eq-some roles kept h =
    let (filled, same) = kept_of (keep (λ s. not (is_blank s)) roles) kept h in
    (filled, λ r. rw (← same) (contains-keep roles r))
