-- ===== src/Certificate/Auth/Access.antt =====
-- Who passes the two middlewares of auth/oidc.go.
use Prim.Native.String.{◌++◌}
use dt4mob_platform.Prelude.{
  ◌≡◌, refl, ◌⊎◌, inl, inr, Bool, true, false, ◌||◌, Option, none, some, List, [], ◌∷◌, any, arith,
  is_some, Bool-cases, if◌then◌else◌,
}
use dt4mob_platform.Prelude.Text.{String, contains, lookup}
use dt4mob_platform.Prelude.Text.Prefix.{cut_prefix, or_whole, cut_prefix-append}
use dt4mob_platform.Certificate.Config.{Config}
use dt4mob_platform.Certificate.Auth.{
  ResourceAccess, Claims, Context, Response, success, error, Oidc, is_untrusted, accept,
  check_token, bearer, extract_bearer_token, auth_middleware, role_middleware, any_required,
  check_access, check_claims, err_missing_role,
}

found_rest :
    (header : String) (o : Option String) {raw : String}
    → cut_prefix header "Bearer " ≡ o
    → (if is_some o then some (or_whole header o) else none) ≡ some raw
    → header ≡ "Bearer " ++ raw
found_rest header none e h = cc
found_rest header (some rest) e h = cc (cut_prefix-append header "Bearer " e)

pub extract_bearer_token-eq-some :
    (ctx : Context) {raw : String}
    → extract_bearer_token ctx ≡ some raw
    → ctx.authorization ≡ "Bearer " ++ raw
unfolding extract_bearer_token
extract_bearer_token-eq-some ctx h =
    found_rest ctx.authorization (cut_prefix ctx.authorization "Bearer ") refl h

-- What `auth_middleware` has checked of a request before it calls the next handler.
pub record IsAuthenticated (oidc : Oidc) (config : Config) (ctx : Context) (claims : Claims)
    : Type 0 where
  pub raw : String
  pub token : oidc.IdToken
  pub bears : ctx.authorization ≡ "Bearer " ++ raw
  pub verified : oidc.verify raw ≡ some token
  pub decoded : oidc.decode token ≡ some claims
  pub trusted :
      (config.oidc_trusted_issuers ≡ [])
      ⊎ (contains config.oidc_trusted_issuers claims.issuer ≡ true)

trusted_of_test :
    (config : Config) (claims : Claims)
    → is_untrusted config claims ≡ false
    → (config.oidc_trusted_issuers ≡ [])
      ⊎ (contains config.oidc_trusted_issuers claims.issuer ≡ true)
trusted_of_test config claims h = ground arith

module _ {A : Type 0} (oidc : Oidc) (config : Config) (ctx : Context)
    (next : Context → Response A) where
  -- The next handler was called, with the claims of an authenticated request, and returned `a`.
  abbrev pub Passed : A → Type 0
  Passed a =
      (claims : Claims) × IsAuthenticated oidc config ctx claims
      × (next (record ctx { claims = some claims }) ≡ success a)

  accept-success :
      {a : A} (raw : String) (token : oidc.IdToken) (found : Option Claims)
      → ctx.authorization ≡ "Bearer " ++ raw
      → oidc.verify raw ≡ some token
      → oidc.decode token ≡ found
      → accept oidc config ctx next found ≡ success a
      → Passed a
  unfolding accept
  accept-success raw token none bears verified decoded h = cc
  accept-success raw token (some claims) bears verified decoded h =
      elim (Bool-cases (is_untrusted config claims)) [
        | inl e ↦ cc (rw e at h)
        | inr e ↦ (
          claims,
          record {
            raw = raw;
            token = token;
            bears = bears;
            verified = verified;
            decoded = decoded;
            trusted = trusted_of_test config claims e;
          },
          rw e at h,
        )
      ]

  check_token-success :
      {a : A} (raw : String) (found : Option oidc.IdToken)
      → ctx.authorization ≡ "Bearer " ++ raw
      → oidc.verify raw ≡ found
      → check_token oidc config ctx next found ≡ success a
      → Passed a
  unfolding check_token
  check_token-success raw none bears verified h = cc
  check_token-success raw (some token) bears verified h =
      accept-success raw token (oidc.decode token) bears verified refl h

  bearer-success :
      {a : A} (found : Option String)
      → extract_bearer_token ctx ≡ found
      → bearer oidc config ctx next found ≡ success a
      → Passed a
  unfolding bearer
  bearer-success none e h = cc
  bearer-success (some raw) e h =
      check_token-success raw (oidc.verify raw) (extract_bearer_token-eq-some ctx e) refl h

  -- Behind the middleware a request has a bearer token that the verifier accepts, whose claims
  -- decode, and whose issuer is trusted if a list of issuers is configured.
  pub auth_middleware-success :
      {a : A} → auth_middleware oidc config ctx next ≡ success a → Passed a
  unfolding auth_middleware
  auth_middleware-success h = bearer-success (extract_bearer_token ctx) refl h

-- A description of the role test: the client's roles hold the admin role or a required one.
abbrev pub is_permitted : Config → List String → Option ResourceAccess → Bool
is_permitted config roles none = false
is_permitted config roles (some access) =
    contains access.roles config.admin_role || any (contains access.roles) roles

-- The reply of the role middleware to a request whose context carries the claims of a token.
abbrev role_reply : {A : Type 0} → Bool → Context → (Context → Response A) → Response A
role_reply allowed ctx next = if allowed then next ctx else error 403 err_missing_role

module _ {A : Type 0} (config : Config) (ctx : Context) (next : Context → Response A) where
  any_required-eq :
      (roles required : List String) (access : ResourceAccess)
      → any_required config roles access required ctx next
        ≡ role_reply (any (contains access.roles) required) ctx next
  unfolding any_required
  any_required-eq roles [] access = refl
  any_required-eq roles (r ∷ rest) access = ground (arith, any_required-eq roles rest access)

  check_access-eq :
      (roles : List String) (found : Option ResourceAccess)
      → check_access config roles found ctx next
        ≡ role_reply (is_permitted config roles found) ctx next
  unfolding check_access
  check_access-eq roles none = refl
  check_access-eq roles (some access) = ground (arith, any_required-eq roles roles access)

  check_claims-eq :
      (roles : List String) (found : Option Claims) {claims : Claims}
      → found ≡ some claims
      → check_claims config roles found ctx next
        ≡ role_reply
            (is_permitted config roles (lookup config.oidc_client_id claims.resource_access))
            ctx
            next
  unfolding check_claims
  check_claims-eq roles none e = cc
  check_claims-eq roles (some claims) e =
      cc (check_access-eq roles (lookup config.oidc_client_id claims.resource_access), e)

  -- For a request whose context carries claims, the middleware's loop with early returns calls the
  -- next handler exactly when the client's roles hold the admin role or a required one, and
  -- otherwise answers 403.
  pub role_middleware-eq :
      (roles : List String) (claims : Claims)
      → ctx.claims ≡ some claims
      → role_middleware config roles ctx next ≡ (
          if is_permitted config roles (lookup config.oidc_client_id claims.resource_access)
          then next ctx
          else error 403 err_missing_role)
  unfolding role_middleware
  role_middleware-eq roles claims e = check_claims-eq roles ctx.claims e
