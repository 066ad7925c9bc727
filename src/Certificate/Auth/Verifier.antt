-- ===== src/Certificate/Auth/Verifier.antt =====
-- `NewVerifier` of auth/oidc.go: what of the configuration goes into the verification of tokens.
pub mod Issuers
pub mod Sample
mod Tests
use dt4mob_platform.Prelude.{ℕ, ltb, Bool, true, Option, none, some, length, if◌then◌else◌}
use dt4mob_platform.Prelude.Chain.{◌>>=◌}
use dt4mob_platform.Prelude.Text.{String, ◌==◌}
use dt4mob_platform.Certificate.Config.{Config}
use dt4mob_platform.Certificate.Auth.{Claims, Oidc}

-- The file system, crypto/x509 and the OIDC library as NewVerifier uses them; `none` is an error. The
-- flags of `verify` are SkipClientIDCheck and SkipIssuerCheck.
pub record Library : Type 1 where
  pub CertPool : Type 0
  pub Provider : Type 0
  pub IdToken : Type 0
  pub read_file : String → Option String
  pub cert_pool : String → Option CertPool
  pub new_provider : Option CertPool → String → Option Provider
  pub verify : Provider → Bool → Bool → String → Option IdToken
  pub token_issuer : IdToken → String
  pub decode : IdToken → Option Claims

module _ (lib : Library) (config : Config) where
  open lib use {CertPool, Provider, IdToken, read_file, cert_pool, new_provider, verify, decode}

  own_pool : Option (Option CertPool)
  own_pool = do
    ca_cert ← read_file config.oidc_ca_certificate
    pool ← cert_pool ca_cert
    some (some pool)

  -- The roots that the client trusts: the system's, or those of the configured file.
  roots : Option (Option CertPool)
  unfolding own_pool
  roots = if config.oidc_ca_certificate == "" then some none else own_pool

  abbrev pub verifier_of : Provider → Oidc
  verifier_of provider = record {
    IdToken = IdToken;
    verify = verify provider true (ltb 0 (length config.oidc_trusted_issuers));
    decode = decode;
  }

  unfoldable pub new_verifier : Option Oidc
  unfolding roots
  new_verifier = do
    pool ← roots
    provider ← new_provider pool config.oidc_issuer_uri
    some (verifier_of provider)
