-- ===== src/Controller/Sample.antt =====
-- A configuration, a state and two networks on which the tests run the controller.
use dt4mob_platform.Prelude.{none, some, [], ◌∷◌, ◌+◌, if◌then◌else◌, true, ℕ}
use dt4mob_platform.Prelude.Text.{String, ◌==◌}
use dt4mob_platform.Json.{null}
use dt4mob_platform.Controller.State.{Config, KeyPair, State}
use dt4mob_platform.Controller.Http.{a_map, Net, Codec}

abbrev pub config : Config
config = record {
  log_level = "info";
  namespace = "dt4mob";
  tls_secret_name = "controller-tls";
  ca_secret_name = "controller-tls";
  registry_service = "registry";
  ditto_service = "ditto";
  kafka_service = "kafka";
  tls_secret_key_selector = "tls.key";
  tls_secret_crt_selector = "tls.crt";
  ca_secret_selector = "ca.crt";
  devops_secret_name = "devops";
  tenant_config_map_name = "tenant";
  tenant_tls_trust_secret_name = "trust";
  devops_secret_selector = "devops-password";
  piggy_back_timeout = 10;
  tenant_config_map_selector = "tenant";
  tenant_tls_trust_secret_selector = "ca.crt";
  registry_host = "http://registry:8080";
  ditto_host = "http://ditto:8080";
  system_service_policy = "dt4mob.av.it.pt:system-service";
}

abbrev pub key_pair : KeyPair
key_pair = record { certificate = "cert" ∷ []; private_key = "key" }

abbrev pub started : State
started = record {
  kafka_host = "kafka:9093";
  tenant = "";
  key_pair = some key_pair;
  ca_crt = "ca";
  trust_crt = "trust";
  devops_password = "secret";
  hono_connection_template = λ tenant host. some "hono";
  export_connection_template = λ tenant host. some "export";
  system_service_policy = null;
}

abbrev pub state : State
state = record started { tenant = "t" }

abbrev pub codec : Codec
codec = record {
  base64 = λ text. text;
  decimal = λ n. "10";
  is_url = λ url. true;
  pem_decode = some;
  pem_encode = λ label der. der;
  marshal_private_key = some;
  unmarshal = λ text. a_map (("uri", null) ∷ []);
  x509_key_pair = λ crt key. some (record { certificate = crt ∷ []; private_key = key });
}

-- The services answer as if nothing had been there before. The world counts the requests.
abbrev pub fresh_status : String → ℕ
fresh_status method = if method == "GET" then 404 else if method == "POST" then 201 else 204

abbrev pub fresh : Net ℕ
fresh = record {
  send = λ n request.
      (some (record { status_code = fresh_status request.method; body = some "" }), n + 1);
}

-- No request gets an answer.
abbrev pub unreachable : Net ℕ
unreachable = record { send = λ n request. (none, n) }
