-- ===== src/Certificate/Service/Tests.antt =====
-- The program on the sample, with a path prefix and a blank role.
use dt4mob_platform.Prelude.{◌≡◌, refl, true, Option, none, some, [], ◌∷◌, if◌then◌else◌}
use dt4mob_platform.Prelude.Text.{String, ◌==◌}
use dt4mob_platform.Prelude.Text.Prefix.{cut_suffix, cut_prefix}
use dt4mob_platform.Certificate.Config.{Config}
use dt4mob_platform.Certificate.Sample.{config, ctx, crypto, draw, input, output}
use dt4mob_platform.Certificate.Auth.{
  success, auth_middleware, role_middleware, extract_bearer_token,
}
use dt4mob_platform.Certificate.Auth.Verifier.{verifier_of, new_verifier}
use dt4mob_platform.Certificate.Auth.Verifier.Sample.{library, library-IsLibrary}
use dt4mob_platform.Certificate.Handler.{
  TlsCert, issue_handler, choose_key, choose_ttl, choose_subject, validate_pem_public_key,
  is_supported,
}
use dt4mob_platform.Certificate.Startup.{
  Secret, settle_roles, is_blank, root_handler, inner_path, load_tls_cert, run_secrets, serve_issue,
}
use dt4mob_platform.Certificate.Service.{started, Machine, Service, Request, issue, start, serve}
use dt4mob_platform.Certificate.Service.Served.{IsCertified, serve-IsCertified}

abbrev environment : Config
environment = record config { namespace = ""; permitted_roles = " " ∷ "issuer" ∷ [] }

abbrev secret : Secret
secret = record { data_of = ("tls.crt", "ca") ∷ ("tls.key", "k") ∷ [] }

abbrev machine : Machine
machine = record {
  is_level = λ level. true;
  namespace_file = some "dt4mob";
  has_client = true;
  read_secret = λ namespace name. if namespace == "dt4mob" then some secret else none;
}

abbrev key_pair : String → String → Option TlsCert
key_pair cert key = some (record { leaf = cert; private_key = key })

abbrev service : Service
service = record {
  config = config;
  verifier = verifier_of library config "https://idp";
  secret = secret;
  root = root_handler "/certs";
  open_id_connect_url = "https://idp/.well-known/openid-configuration";
}

running : start machine library (some environment) ≡ started service
unfolding start settle_roles is_blank new_verifier cut_suffix
running = refl

abbrev request : Request
request = record { method = "POST"; path = "/certs/issue"; input = input; ctx = ctx }

served : serve crypto key_pair service draw [] request ≡ issue (success output)
unfolding serve inner_path root_handler cut_suffix cut_prefix run_secrets load_tls_cert serve_issue
    auth_middleware extract_bearer_token role_middleware issue_handler choose_key choose_ttl
    choose_subject validate_pem_public_key is_supported
served = refl

serve-IsCertified_example : IsCertified crypto key_pair environment service draw [] request output
serve-IsCertified_example =
    serve-IsCertified machine library library-IsLibrary crypto key_pair environment service running
      draw [] request output served
