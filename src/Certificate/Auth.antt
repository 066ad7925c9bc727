-- ===== src/Certificate/Auth.antt =====
-- services/dt4mob-certificate-service/auth/oidc.go: claims, roles and the two middlewares.
pub mod Access
pub mod Verifier
mod Tests
use dt4mob_platform.Prelude.{
  ℕ, ltb, Bool, true, false, not, ◌&&◌, Option, none, some, List, [], ◌∷◌, length, is_some,
  if◌then◌else◌,
}
use dt4mob_platform.Prelude.Text.{String, contains, lookup}
use dt4mob_platform.Prelude.Text.Prefix.{has_prefix, trim_prefix}
use dt4mob_platform.Certificate.Config.{Config}

pub record ResourceAccess : Type 0 where
  pub roles : List String

pub record Claims : Type 0 where
  pub issuer : String
  pub subject : String
  pub resource_access : List (String × ResourceAccess)

abbrev access_roles : Option ResourceAccess → String → Bool
access_roles none role = false
access_roles (some access) role = contains access.roles role

-- Claims.HasRole
pub has_role : Claims → String → String → Bool
has_role claims client_id role = access_roles (lookup client_id claims.resource_access) role

-- Claims.IsAdmin
unfoldable pub is_admin : Claims → Config → Bool
unfolding has_role
is_admin claims config = has_role claims config.oidc_client_id config.admin_role

-- A request as the middlewares see it: its header, and the claims that its context carries.
pub record Context : Type 0 where
  pub authorization : String
  pub claims : Option Claims

-- `error` is what `huma.WriteErr` sends; `panic` is a run-time panic of the handling goroutine.
pub data Response (A : Type 0) : Type 0 where
  success : A → Response A
  error : ℕ → String → Response A
  panic : Response A

-- `none` is ErrNoBearerToken.
unfoldable pub extract_bearer_token : Context → Option String
extract_bearer_token ctx =
    if has_prefix ctx.authorization "Bearer "
    then some (trim_prefix ctx.authorization "Bearer ")
    else none

-- The OIDC library: the verifier's `Verify`, and `IDToken.Claims`. `none` is an error.
pub record Oidc : Type 1 where
  pub IdToken : Type 0
  pub verify : String → Option IdToken
  pub decode : IdToken → Option Claims

abbrev err_authorization_scheme : String
err_authorization_scheme = "invalid authorization scheme"

abbrev err_invalid_token : String
err_invalid_token = "invalid token"

abbrev err_invalid_token_issuer : String
err_invalid_token_issuer = "invalid token issuer"

abbrev err_missing_role : String
err_missing_role = "missing role"

-- `len(trusted) > 0 && !slices.Contains(trusted, issuer)`
abbrev is_untrusted : Config → Claims → Bool
is_untrusted config claims =
    ltb 0 (length config.oidc_trusted_issuers)
    && not (contains config.oidc_trusted_issuers claims.issuer)

module _ {A : Type 0} (oidc : Oidc) (config : Config) where
  open oidc use {IdToken, verify, decode}

  -- The last two tests of the middleware, and the call of the next handler.
  accept : Context → (Context → Response A) → Option Claims → Response A
  accept ctx next none = error 401 err_invalid_token
  accept ctx next (some claims) =
      if is_untrusted config claims
      then error 401 err_invalid_token_issuer
      else next (record ctx { claims = some claims })

  check_token : Context → (Context → Response A) → Option IdToken → Response A
  check_token ctx next none = error 401 err_invalid_token
  check_token ctx next (some token) = accept ctx next (decode token)

  bearer : Context → (Context → Response A) → Option String → Response A
  bearer ctx next none = error 401 err_authorization_scheme
  bearer ctx next (some raw) = check_token ctx next (verify raw)

  -- Verifier.NewAuthMiddleware
  unfoldable pub auth_middleware : Context → (Context → Response A) → Response A
  unfolding accept check_token bearer
  auth_middleware ctx next = bearer ctx next (extract_bearer_token ctx)

module _ {A : Type 0} (config : Config) (roles : List String) where
  -- `for _, required := range roles`
  any_required : ResourceAccess → List String → Context → (Context → Response A) → Response A
  any_required access [] ctx next = error 403 err_missing_role
  any_required access (required ∷ rest) ctx next =
      if contains access.roles required then next ctx else any_required access rest ctx next

  check_access : Option ResourceAccess → Context → (Context → Response A) → Response A
  check_access none ctx next = error 403 err_missing_role
  check_access (some access) ctx next =
      if contains access.roles config.admin_role
      then next ctx
      else any_required access roles ctx next

  check_claims : Option Claims → Context → (Context → Response A) → Response A
  check_claims none ctx next = panic
  check_claims (some claims) ctx next =
      check_access (lookup config.oidc_client_id claims.resource_access) ctx next

  -- Verifier.NewRoleMiddleware. Its type assertion has no `ok`, so a context without claims is a
  -- panic; the claims that `auth_middleware` puts there are never a nil pointer.
  unfoldable pub role_middleware : Context → (Context → Response A) → Response A
  unfolding any_required check_access check_claims
  role_middleware ctx next = check_claims ctx.claims ctx next
