-- ===== src/Certificate/Auth/Verifier/Sample.antt =====
-- An OIDC library on which the tests run, which keeps its documentation.
use dt4mob_platform.Prelude.{
  ◌≡◌, sym, ◌∙◌, Bool, true, false, Option, none, some, Bool-cases, inl, inr, if◌then◌else◌,
}
use dt4mob_platform.Prelude.Text.{String, ◌==◌, eq_iff}
use dt4mob_platform.Certificate.Sample.{claims}
use dt4mob_platform.Certificate.Auth.{Claims}
use dt4mob_platform.Certificate.Auth.Verifier.{Library}
use dt4mob_platform.Certificate.Auth.Verifier.Issuers.{IsLibrary}

abbrev pub verify : String → Bool → Bool → String → Option Claims
verify provider skip_client_id true raw = some claims
verify provider skip_client_id false raw = if claims.issuer == provider then some claims else none

abbrev pub library : Library
library = record {
  CertPool = String;
  Provider = String;
  IdToken = Claims;
  read_file = some;
  cert_pool = some;
  new_provider = λ pool issuer_uri. some issuer_uri;
  verify = verify;
  token_issuer = λ token. token.issuer;
  decode = some;
}

verify-issuer :
    (provider : String) (skip : Bool) (raw : String) (token : Claims)
    → verify provider skip false raw ≡ some token
    → token.issuer ≡ provider
verify-issuer provider skip raw token h = elim (Bool-cases (claims.issuer == provider)) [
  | inl e ↦
      let same : claims ≡ token = cc (rw e at h) in
      rw (sym same) ((eq_iff claims.issuer provider).0 e)
  | inr e ↦ cc (rw e at h)
]

pub library-IsLibrary : IsLibrary library
library-IsLibrary = record {
  checks_issuer = λ pool uri provider skip raw token known h.
      verify-issuer provider skip raw token h ∙ sym (cc known);
  decodes_issuer = λ token found h. cc h;
}
