-- ===== src/Certificate/Handler.antt =====
-- services/dt4mob-certificate-service/handler/handler.go: the TLS pair in memory, the readiness
-- probe, the check of a public key, and `IssueHandler`.
pub mod Origins
pub mod Issue
pub mod Validity
mod Tests
use dt4mob_platform.Prelude.{
  ℕ, ◌+◌, ◌-◌, ◌*◌, ◌/◌, ◌%◌, ◌^◌, ltb, Bool, true, false, not, ◌&&◌, Option, none, some,
  if◌then◌else◌,
}
use dt4mob_platform.Prelude.Text.{String, ◌==◌}
use dt4mob_platform.Prelude.Int.{ℤ, pos, negsuc, ◌+ℤ◌, ltb_ℤ}
use dt4mob_platform.Certificate.Config.{Config}
use dt4mob_platform.Certificate.Auth.{Claims, Context, Response, success, error, panic, is_admin}

-- What `x509.ParsePKIXPublicKey` returns, as far as the type switch looks: an RSA modulus's
-- length in bits, an ECDSA key's curve name. The text is the key itself.
pub data PublicKey : Type 0 where
  rsa : ℕ → String → PublicKey
  ecdsa : String → String → PublicKey
  ed25519 : String → PublicKey
  other_key : String → PublicKey

-- A parsed key pair: the leaf certificate and the private key, as DER.
pub record TlsCert : Type 0 where
  pub leaf : String
  pub private_key : String

pub record PrivateKey : Type 0 where
  pub public : PublicKey
  pub private : String

-- The fields of `x509.Certificate` that vary; the times are in nanoseconds.
pub record Template : Type 0 where
  pub common_name : String
  pub not_before : ℤ
  pub not_after : ℤ

-- crypto/x509, encoding/pem and crypto/ecdsa. `none` is an error.
pub record Crypto : Type 0 where
  pub pem_decode : String → Option String
  pub pem_encode : String → String → String
  pub parse_public_key : String → Option PublicKey
  pub marshal_private_key : PrivateKey → Option String
  pub create_certificate : Template → String → PublicKey → String → Option String

-- What one call reads from outside: the time, and the key that `ecdsa.GenerateKey` draws.
pub record Draw : Type 0 where
  pub now : ℤ
  pub generated : Option PrivateKey

pub record IssueInput : Type 0 where
  pub public_key : String
  pub time_to_live : Option ℕ  -- uint64
  pub subject : Option String

pub record IssueOutput : Type 0 where
  pub certificate : String
  pub private_key : String

abbrev pub err_invalid_pem : String
err_invalid_pem = "invalid PEM block"

abbrev pub err_invalid_public_key : String
err_invalid_public_key = "invalid public key"

abbrev pub err_unsupported_public_key : String
err_unsupported_public_key = "unsupported public key type"

abbrev err_cert_ttl_exceeds_max : String
err_cert_ttl_exceeds_max = "certificate time to live exceeds the maximum allowed duration"

abbrev err_subject_forbidden : String
err_subject_forbidden = "not enough permissions to set the certificate subject"

-- `(*rsa.PublicKey).Size`: the length of the modulus in bytes, rounded up.
abbrev pub rsa_size : ℕ → ℕ
rsa_size bits = (bits + 7) / 8

-- The type switch of `validatePEMPublicKey`; false is errUnsupportedPublicKey.
unfoldable pub is_supported : PublicKey → Bool
is_supported (rsa bits key) = not (ltb (rsa_size bits) (3072 / 8))
is_supported (ecdsa curve key) =
    if curve == "P-256" then true else if curve == "P-384" then true else curve == "P-521"
is_supported (ed25519 key) = true
is_supported (other_key key) = false

-- A value or an error's text.
pub data Checked (A : Type 0) : Type 0 where
  valid : A → Checked A
  invalid : String → Checked A

abbrev check_key : Option PublicKey → Checked PublicKey
check_key none = invalid err_invalid_public_key
check_key (some key) = if is_supported key then valid key else invalid err_unsupported_public_key

-- An `int64` by its bit pattern.
pub to_int64 : ℕ → ℤ
to_int64 bits = if ltb bits (2 ^ 63) then pos bits else negsuc (2 ^ 64 - 1 - bits)

abbrev pub hour : ℕ
hour = 3600 * 1000000000

-- `time.Duration(n) * time.Hour`, which wraps.
pub hours : ℕ → ℤ
unfolding to_int64
hours n = to_int64 (n * hour % 2 ^ 64)

infixl 5 ◌>>=◌
abbrev pub ◌>>=◌ : {A B : Type 0} → Response A → (A → Response B) → Response B
success a >>= k = k a
error status detail >>= k = error status detail
panic >>= k = panic

abbrev internal_server_error : {A : Type 0} → Response A
internal_server_error = error 500 "internal server error"

module _ (crypto : Crypto) where
  open crypto use {pem_decode, pem_encode, parse_public_key, marshal_private_key}
  open crypto use {create_certificate}

  pub check_block : Option String → Checked PublicKey
  check_block none = invalid err_invalid_pem
  check_block (some block) = check_key (parse_public_key block)

  unfoldable pub validate_pem_public_key : String → Checked PublicKey
  unfolding check_block
  validate_pem_public_key pem = check_block (pem_decode pem)

  given_key : Checked PublicKey → Response (PublicKey × String)
  given_key (invalid detail) = error 400 detail
  given_key (valid key) = success (key, "")

  marshalled : PublicKey → Option String → Response (PublicKey × String)
  marshalled public none = internal_server_error
  marshalled public (some der) = success (public, pem_encode "PRIVATE KEY" der)

  generated_key : Option PrivateKey → Response (PublicKey × String)
  unfolding marshalled
  generated_key none = internal_server_error
  generated_key (some key) = marshalled key.public (marshal_private_key key)

  -- The key to certify, and the private key to return with it.
  unfoldable pub choose_key : Draw → IssueInput → Response (PublicKey × String)
  unfolding given_key generated_key validate_pem_public_key
  choose_key draw input =
      if input.public_key == ""
      then generated_key draw.generated
      else given_key (validate_pem_public_key input.public_key)

  signed : String → Option String → Response IssueOutput
  signed private none = internal_server_error
  signed private (some der) =
      success (record { certificate = pem_encode "CERTIFICATE" der; private_key = private })

unfoldable pub choose_ttl : Config → Claims → Option ℕ → Response ℤ
unfolding hours is_admin
choose_ttl config claims none = success config.default_certificate_ttl
choose_ttl config claims (some n) =
    if not (is_admin claims config) && ltb_ℤ config.max_certificate_ttl (hours n)
    then error 400 err_cert_ttl_exceeds_max
    else success (hours n)

unfoldable pub choose_subject : Config → Claims → Option String → Response String
unfolding is_admin
choose_subject config claims none = success claims.subject
choose_subject config claims (some subject) =
    if not (is_admin claims config) then error 403 err_subject_forbidden else success subject

abbrev pub make_template : String → ℤ → ℤ → Template
make_template subject not_before ttl = record {
  common_name = subject;
  not_before = not_before;
  not_after = not_before +ℤ ttl;
}

module _ (crypto : Crypto) (config : Config) (draw : Draw) where
  issue_with : TlsCert → Claims → IssueInput → Response IssueOutput
  unfolding signed
  issue_with ca claims input = do
    (key, private) ← choose_key crypto draw input
    ttl ← choose_ttl config claims input.time_to_live
    subject ← choose_subject config claims input.subject
    signed crypto private
        (crypto.create_certificate (make_template subject draw.now ttl) ca.leaf key ca.private_key)

  -- The nil claims of a context without them are dereferenced only past the other checks, which is
  -- a panic at the latest when the subject is read.
  issue_claims : TlsCert → Option Claims → IssueInput → Response IssueOutput
  unfolding issue_with
  issue_claims ca none input = do key ← choose_key crypto draw input; panic
  issue_claims ca (some claims) input = issue_with ca claims input

  issue_ready : Option TlsCert → Option Claims → IssueInput → Response IssueOutput
  unfolding issue_claims
  issue_ready none claims input = error 503 "service is still initializing"
  issue_ready (some ca) claims input = issue_claims ca claims input

  unfoldable pub issue_handler : Option TlsCert → IssueInput → Context → Response IssueOutput
  unfolding issue_ready
  issue_handler tls_cert input ctx = issue_ready tls_cert ctx.claims input

-- Handler.ReadyHandler: the status that the probe gets.
unfoldable pub ready_handler : Option TlsCert → ℕ
ready_handler none = 503
ready_handler (some cert) = 204
