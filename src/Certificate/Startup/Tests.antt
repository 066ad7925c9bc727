-- ===== src/Certificate/Startup/Tests.antt =====
-- The service as `main` composes it, on the sample.
use dt4mob_platform.Prelude.{◌≡◌, refl, Option, none, some, List, [], ◌∷◌, if◌then◌else◌}
use dt4mob_platform.Prelude.Text.{String, ◌==◌}
use dt4mob_platform.Prelude.Text.Prefix.{cut_suffix, cut_prefix}
use dt4mob_platform.Certificate.Sample.{config, oidc, ctx, crypto, draw, ca, input, output}
use dt4mob_platform.Certificate.Auth.{
  success, auth_middleware, role_middleware, extract_bearer_token,
}
use dt4mob_platform.Certificate.Handler.{
  TlsCert, issue_handler, ready_handler, choose_key, choose_ttl, choose_subject,
  validate_pem_public_key, is_supported,
}
use dt4mob_platform.Certificate.Startup.{
  Secret, WatchEvent, modified, deleted, settle_roles, root_handler, inner_path, load_tls_cert,
  run_secrets, serve_issue,
}
use dt4mob_platform.Certificate.Startup.Secrets.{offered, versions, last_of, run_secrets-eq-last}

served : serve_issue oidc crypto config ("issuer" ∷ []) draw (some ca) input ctx ≡ success output
unfolding serve_issue auth_middleware extract_bearer_token role_middleware issue_handler choose_key
    choose_ttl choose_subject validate_pem_public_key is_supported cut_prefix
served = refl

settled : settle_roles (" " ∷ "issuer" ∷ "" ∷ []) ≡ some ("issuer" ∷ [])
unfolding settle_roles
settled = refl

routed : inner_path (root_handler "/certs") "/certs/issue" ≡ some "/issue"
unfolding inner_path root_handler cut_suffix cut_prefix
routed = refl

abbrev key_pair : String → String → Option TlsCert
key_pair cert key = if cert == "bad" then none else some (record { leaf = cert; private_key = key })

abbrev secret : String → Secret
secret cert = record { data_of = ("tls.crt", cert) ∷ ("tls.key", "k") ∷ [] }

abbrev events : List WatchEvent
events =
    record { type = modified; object = secret "new" }
    ∷ record { type = modified; object = secret "bad" }
    ∷ record { type = deleted; object = secret "gone" }
    ∷ []

run_secrets-eq-last_example :
    run_secrets key_pair config (secret "bad") events
    ≡ last_of none (offered key_pair config (secret "bad" ∷ versions events))
run_secrets-eq-last_example = run_secrets-eq-last key_pair config (secret "bad") events

is_ready : ready_handler (run_secrets key_pair config (secret "old") []) ≡ 204
unfolding ready_handler run_secrets load_tls_cert
is_ready = refl
