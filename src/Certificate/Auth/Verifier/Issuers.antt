-- ===== src/Certificate/Auth/Verifier/Issuers.antt =====
-- Whose tokens the service of auth/oidc.go accepts.
use mathlib.Core.Option.{some-injective}
use mathlib.Core.Path.{subst}
use dt4mob_platform.Prelude.{◌≡◌, sym, ◌∙◌, ◌⊎◌, inl, inr, Bool, true, false, Option, some, []}
use dt4mob_platform.Prelude.Chain.{>>=-eq-some}
use dt4mob_platform.Prelude.Text.{String, contains}
use dt4mob_platform.Certificate.Config.{Config}
use dt4mob_platform.Certificate.Auth.{Claims, Context, Response, success, Oidc, auth_middleware}
use dt4mob_platform.Certificate.Auth.Access.{IsAuthenticated, auth_middleware-success}
use dt4mob_platform.Certificate.Auth.Verifier.{Library, verifier_of, new_verifier, roots}

-- What the OIDC library documents: a provider is that of its issuer; unless SkipIssuerCheck is set,
-- a token that verifies has that issuer; and the claims repeat the token's issuer.
pub record IsLibrary (lib : Library) : Type 0 where
  pub checks_issuer :
      (pool : Option lib.CertPool) (issuer_uri : String) (provider : lib.Provider)
      (skip_client_id_check : Bool) (raw : String) (token : lib.IdToken)
      → lib.new_provider pool issuer_uri ≡ some provider
      → lib.verify provider skip_client_id_check false raw ≡ some token
      → lib.token_issuer token ≡ issuer_uri
  pub decodes_issuer :
      (token : lib.IdToken) (claims : Claims)
      → lib.decode token ≡ some claims
      → claims.issuer ≡ lib.token_issuer token

-- The issuer is in the list of the configuration, or is the configured one if there is no list.
abbrev pub IsTrusted : Config → Claims → Type 0
IsTrusted config claims =
    (contains config.oidc_trusted_issuers claims.issuer ≡ true)
    ⊎ ((config.oidc_trusted_issuers ≡ []) × (claims.issuer ≡ config.oidc_issuer_uri))

module _ (lib : Library) (laws : IsLibrary lib) (config : Config) where
  made :
      (oidc : Oidc)
      → new_verifier lib config ≡ some oidc
      → (pool : Option lib.CertPool) × (provider : lib.Provider) × (lib.new_provider pool
            config.oidc_issuer_uri
          ≡ some provider)
        × (verifier_of lib config provider ≡ oidc)
  unfolding new_verifier
  made oidc h =
      let (pool, _, h₁) = >>=-eq-some (roots lib config) _ h in
      let (provider, known, h₂) = >>=-eq-some (lib.new_provider pool config.oidc_issuer_uri) _ h₁ in
      (pool, provider, known, some-injective _ _ h₂)

  authenticated-IsTrusted :
      (ctx : Context) (claims : Claims) (pool : Option lib.CertPool) (provider : lib.Provider)
      → lib.new_provider pool config.oidc_issuer_uri ≡ some provider
      → (a : IsAuthenticated (verifier_of lib config provider) config ctx claims)
      → (config.oidc_trusted_issuers ≡ [])
        ⊎ (contains config.oidc_trusted_issuers claims.issuer ≡ true)
      → IsTrusted config claims
  authenticated-IsTrusted ctx claims pool provider known a (inl empty) =
      let verified = rw empty at a.verified in
      inr (
        empty,
        laws.decodes_issuer a.token claims a.decoded
            ∙ laws.checks_issuer pool config.oidc_issuer_uri provider true a.raw a.token known
                verified,
      )
  authenticated-IsTrusted ctx claims pool provider known a (inr listed) = inl listed

  pub verified-IsTrusted :
      (oidc : Oidc) (ctx : Context) (claims : Claims)
      → new_verifier lib config ≡ some oidc
      → IsAuthenticated oidc config ctx claims
      → IsTrusted config claims
  verified-IsTrusted oidc ctx claims h a =
      let (pool, provider, known, same) = made oidc h in
      let own = subst (λ o. IsAuthenticated o config ctx claims) (sym same) a in
      authenticated-IsTrusted ctx claims pool provider known own a.trusted

  -- Behind the middleware of a verifier that NewVerifier made, a request has claims whose issuer the
  -- configuration trusts: one of its list, or, with no list, the issuer that it names. The next
  -- handler sees these claims. The OIDC library must keep its documentation (IsLibrary).
  pub auth_middleware-IsTrusted :
      {A : Type 0} (oidc : Oidc) (ctx : Context) (next : Context → Response A) {a : A}
      → new_verifier lib config ≡ some oidc
      → auth_middleware oidc config ctx next ≡ success a
      → (claims : Claims) × IsTrusted config claims
        × IsAuthenticated oidc config ctx claims
        × (next (record ctx { claims = some claims }) ≡ success a)
  auth_middleware-IsTrusted oidc ctx next h passed =
      let (claims, authentic, called) = auth_middleware-success oidc config ctx next passed in
      (claims, verified-IsTrusted oidc ctx claims h authentic, authentic, called)
