-- ===== src/Certificate/Auth/Verifier/Tests.antt =====
-- A verifier without a list of issuers.
use dt4mob_platform.Prelude.{ℕ, ◌≡◌, refl, some, []}
use dt4mob_platform.Prelude.Text.Prefix.{cut_prefix}
use dt4mob_platform.Certificate.Config.{Config}
use dt4mob_platform.Certificate.Sample.{config as listed, ctx}
use dt4mob_platform.Certificate.Auth.{
  Claims, Context, Response, success, auth_middleware, extract_bearer_token,
}
use dt4mob_platform.Certificate.Auth.Access.{IsAuthenticated}
use dt4mob_platform.Certificate.Auth.Verifier.Sample.{library, library-IsLibrary}
use dt4mob_platform.Certificate.Auth.Verifier.{verifier_of, new_verifier, roots}
use dt4mob_platform.Certificate.Auth.Verifier.Issuers.{IsTrusted, auth_middleware-IsTrusted}

abbrev config : Config
config = record listed { oidc_trusted_issuers = [] }

abbrev next : Context → Response ℕ
next c = success 7

verified : new_verifier library config ≡ some (verifier_of library config "https://idp")
unfolding new_verifier roots
verified = refl

admitted : auth_middleware (verifier_of library config "https://idp") config ctx next ≡ success 7
unfolding auth_middleware extract_bearer_token cut_prefix
admitted = refl

auth_middleware-IsTrusted_example :
    (claims : Claims) × IsTrusted config claims
    × IsAuthenticated (verifier_of library config "https://idp") config ctx claims
    × (next (record ctx { claims = some claims }) ≡ success 7)
auth_middleware-IsTrusted_example =
    auth_middleware-IsTrusted library library-IsLibrary config
      (verifier_of library config "https://idp") ctx next verified admitted
