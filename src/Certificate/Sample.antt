-- ===== src/Certificate/Sample.antt =====
-- A configuration, a caller and a key infrastructure on which the tests run the service.
use Prim.Native.String.{◌++◌}
use dt4mob_platform.Prelude.{◌*◌, none, some, [], ◌∷◌, if◌then◌else◌}
use dt4mob_platform.Prelude.Text.{◌==◌}
use dt4mob_platform.Prelude.Int.{pos}
use dt4mob_platform.Certificate.Config.{Config}
use dt4mob_platform.Certificate.Auth.{Claims, Context, Oidc}
use dt4mob_platform.Certificate.Handler.{
  PublicKey, ecdsa, rsa, TlsCert, Crypto, Draw, IssueInput, IssueOutput, hour,
}

abbrev pub config : Config
config = record {
  log_level = "info";
  namespace = "dt4mob";
  listen_addr = ":8080";
  management_listen_addr = ":9090";
  path_prefix = "/certs";
  secret_name = "device-ca";
  secret_cert_selector = "tls.crt";
  secret_key_selector = "tls.key";
  oidc_ca_certificate = "";
  oidc_issuer_uri = "https://idp";
  oidc_trusted_issuers = "https://idp" ∷ [];
  oidc_client_id = "certs";
  admin_role = "admin";
  permitted_roles = "issuer" ∷ [];
  default_certificate_ttl = pos (720 * hour);
  max_certificate_ttl = pos (2160 * hour);
}

abbrev pub claims : Claims
claims = record {
  issuer = "https://idp";
  subject = "company-a";
  resource_access = ("certs", record { roles = "issuer" ∷ [] }) ∷ [];
}

abbrev pub oidc : Oidc
oidc = record {
  IdToken = Claims;
  verify = λ raw. if raw == "token" then some claims else none;
  decode = some;
}

abbrev pub ctx : Context
ctx = record { authorization = "Bearer token"; claims = none }

abbrev pub known : Context
known = record { authorization = "Bearer token"; claims = some claims }

abbrev pub key : PublicKey
key = ecdsa "P-256" "device key"

abbrev pub crypto : Crypto
crypto = record {
  pem_decode = some;
  pem_encode = λ label der. label ++ ":" ++ der;
  parse_public_key = λ block. if block == "weak" then some (rsa 2048 block) else some key;
  marshal_private_key = λ pair. some pair.private;
  create_certificate = λ template leaf public private. some template.common_name;
}

abbrev pub draw : Draw
draw = record { now = pos 1000; generated = none }

abbrev pub ca : TlsCert
ca = record { leaf = "ca"; private_key = "ca key" }

abbrev pub input : IssueInput
input = record { public_key = "device"; time_to_live = some 24; subject = none }

abbrev pub output : IssueOutput
output = record { certificate = "CERTIFICATE:company-a"; private_key = "" }
