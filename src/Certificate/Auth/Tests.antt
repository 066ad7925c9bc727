-- ===== src/Certificate/Auth/Tests.antt =====
-- The middlewares on the sample.
use dt4mob_platform.Prelude.{◌≡◌, refl, ℕ, none}
use dt4mob_platform.Prelude.Text.Prefix.{cut_prefix}
use dt4mob_platform.Certificate.Sample.{config, oidc, ctx}
use dt4mob_platform.Certificate.Auth.{
  Context, Response, success, error, err_authorization_scheme, auth_middleware,
  extract_bearer_token,
}

abbrev next : Context → Response ℕ
next c = success 7

admitted : auth_middleware oidc config ctx next ≡ success 7
unfolding auth_middleware extract_bearer_token cut_prefix
admitted = refl

no_scheme :
    auth_middleware oidc config (record { authorization = "Basic x"; claims = none }) next
    ≡ error 401 err_authorization_scheme
unfolding auth_middleware extract_bearer_token cut_prefix
no_scheme = refl
