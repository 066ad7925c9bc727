-- ===== src/Controller/State.antt =====
-- services/dt4mob-controller/state/state.go and config/config.go: what the controller knows, what it
-- still misses, and the addresses that it calls.
pub mod Missing
use Prim.Native.String.{◌++◌}
use dt4mob_platform.Prelude.{
  ℕ, Bool, true, false, not, Option, none, some, List, [], ◌∷◌, is_some, if◌then◌else◌,
}
use dt4mob_platform.Prelude.Text.{String, ◌==◌}
use dt4mob_platform.Json.{Json}

-- config.Config, less the names of the secrets and config maps that only select what is watched.
pub record Config : Type 0 where
  pub log_level : String
  pub namespace : String
  pub tls_secret_name : String
  pub tls_secret_key_selector : String
  pub tls_secret_crt_selector : String
  pub ca_secret_name : String
  pub ca_secret_selector : String
  pub devops_secret_name : String
  pub devops_secret_selector : String
  pub piggy_back_timeout : ℕ
  pub tenant_config_map_name : String
  pub tenant_config_map_selector : String
  pub tenant_tls_trust_secret_name : String
  pub tenant_tls_trust_secret_selector : String
  pub registry_service : String
  pub registry_host : String
  pub ditto_service : String
  pub ditto_host : String
  pub kafka_service : String
  pub system_service_policy : String

-- tls.Certificate: the chain and the private key, as DER.
pub record KeyPair : Type 0 where
  pub certificate : List String
  pub private_key : String

pub record State : Type 0 where
  pub kafka_host : String
  pub tenant : String
  pub key_pair : Option KeyPair
  pub ca_crt : String
  pub trust_crt : String
  pub devops_password : String
  -- A template from its two variables, `Tenant` and `KafkaHost`; `none` is an error of `Execute`.
  pub hono_connection_template : String → String → Option String
  pub export_connection_template : String → String → Option String
  pub system_service_policy : Json

pub record Predicate : Type 0 where
  pub condition : Bool
  pub name : String

abbrev pred : Bool → String → Predicate
pred condition name = record { condition = condition; name = name }

-- The loop of MissingInitialization.
abbrev first_missing : List Predicate → String
first_missing [] = ""
first_missing (p ∷ preds) = if not p.condition then p.name else first_missing preds

-- State.MissingInitialization
unfoldable pub missing_initialization : State → String
missing_initialization state = first_missing (
    pred (not (state.tenant == "")) "Tenant"
    ∷ pred (is_some state.key_pair) "Key pair"
    ∷ pred (not (state.ca_crt == "")) "CA certificate"
    ∷ pred (not (state.trust_crt == "")) "Trust certificate"
    ∷ pred (not (state.devops_password == "")) "Devops password"
    ∷ [])

-- State.AuthHeader, over the base64 of the standard library.
pub auth_header : (String → String) → State → String
auth_header base64 state = "Basic " ++ base64 ("devops:" ++ state.devops_password)

-- State.DittoHonoConnectionUrl
pub ditto_hono_connection_url : State → Config → String
ditto_hono_connection_url state config =
    config.ditto_host ++ "/api/2/connections/hono-kafka-connection-for-" ++ state.tenant

-- State.DittoExportConnectionUrl
pub ditto_export_connection_url : State → Config → String
ditto_export_connection_url state config =
    config.ditto_host ++ "/api/2/connections/export-kafka-connection-for-" ++ state.tenant

-- State.DittoPiggyBackUrl; `decimal` prints the timeout as `%d` does.
pub ditto_piggy_back_url : (ℕ → String) → Config → String → String
ditto_piggy_back_url decimal config service =
    config.ditto_host
    ++ "/devops/piggyback/"
    ++ service
    ++ "?timeout="
    ++ decimal config.piggy_back_timeout

-- State.HonoTenantUrl
pub hono_tenant_url : State → Config → String
hono_tenant_url state config = config.registry_host ++ "/v1/tenants/" ++ state.tenant
