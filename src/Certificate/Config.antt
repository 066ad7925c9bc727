-- ===== src/Certificate/Config.antt =====
-- services/dt4mob-certificate-service/config/config.go
use dt4mob_platform.Prelude.{List}
use dt4mob_platform.Prelude.Text.{String}
use dt4mob_platform.Prelude.Int.{ℤ}

-- A `time.Duration` is its number of nanoseconds.
pub record Config : Type 0 where
  pub log_level : String
  pub namespace : String
  pub listen_addr : String
  pub management_listen_addr : String
  pub path_prefix : String
  pub secret_name : String
  pub secret_cert_selector : String
  pub secret_key_selector : String
  pub oidc_ca_certificate : String
  pub oidc_issuer_uri : String
  pub oidc_trusted_issuers : List String
  pub oidc_client_id : String
  pub admin_role : String
  pub permitted_roles : List String
  pub default_certificate_ttl : ℤ
  pub max_certificate_ttl : ℤ
