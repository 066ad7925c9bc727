-- ===== src/Certificate/Handler/Validity.antt =====
-- Which keys handler/handler.go certifies and for how long.
use dt4mob_platform.Prelude.{
  ℕ, ◌+◌, ◌*◌, ◌%◌, ◌^◌, ◌≤◌, ◌≡◌, refl, ◌↔◌, ◌⊎◌, inl, inr, true, false, Option, none, some, arith,
}
use dt4mob_platform.Prelude.Text.{String, eq_iff}
use dt4mob_platform.Prelude.Int.{ℤ, pos, ◌+ℤ◌, ◌≤ℤ◌, +ℤ_mono_right}
use dt4mob_platform.Certificate.Config.{Config}
use dt4mob_platform.Certificate.Auth.{Claims, Context, success, is_admin}
use dt4mob_platform.Certificate.Handler.{
  PublicKey, rsa, ecdsa, ed25519, other_key, TlsCert, Template, Crypto, Draw, IssueInput,
  IssueOutput, is_supported, valid, check_key, check_block, validate_pem_public_key, hour, hours,
  to_int64, choose_ttl, make_template, issue_handler,
}
use dt4mob_platform.Certificate.Handler.Origins.{
  TtlOrigin, by_default, asked, SubjectOrigin, own, chosen, check_block-valid,
}
use dt4mob_platform.Certificate.Handler.Issue.{issue_handler-success}

-- RSA keys of more than 3064 bits, which is where a size in whole bytes reaches that of 3072 bits,
-- ECDSA keys on three curves, and Ed25519 keys.
abbrev pub IsStrong : PublicKey → Type 0
IsStrong (rsa bits key) = 3065 ≤ bits
IsStrong (ecdsa curve key) = (curve ≡ "P-256") ⊎ (curve ≡ "P-384") ⊎ (curve ≡ "P-521")
IsStrong (ed25519 key) = Unit {0}
IsStrong (other_key key) = ⊥

is_supported-IsStrong : (key : PublicKey) → is_supported key ≡ true → IsStrong key
unfolding is_supported
is_supported-IsStrong (rsa bits key) h = ground arith
is_supported-IsStrong (ecdsa curve key) h =
    ground (arith, eq_iff curve "P-256", eq_iff curve "P-384", eq_iff curve "P-521")
is_supported-IsStrong (ed25519 key) h = tt
is_supported-IsStrong (other_key key) h = cc

IsStrong-is_supported : (key : PublicKey) → IsStrong key → is_supported key ≡ true
unfolding is_supported
IsStrong-is_supported (rsa bits key) h = ground arith
IsStrong-is_supported (ecdsa curve key) h =
    ground (arith, eq_iff curve "P-256", eq_iff curve "P-384", eq_iff curve "P-521")
IsStrong-is_supported (ed25519 key) h = refl
IsStrong-is_supported (other_key key) h = absurd h

check_key-IsStrong :
    (found : Option PublicKey) (key : PublicKey)
    → found ≡ some key
    → IsStrong key
    → check_key found ≡ valid key
check_key-IsStrong none key e h = cc
check_key-IsStrong (some k) key e h = ground (arith, IsStrong-is_supported key h)

check_block-IsStrong :
    (crypto : Crypto) (found : Option String) (block : String) (key : PublicKey)
    → found ≡ some block
    → crypto.parse_public_key block ≡ some key
    → IsStrong key
    → check_block crypto found ≡ valid key
unfolding check_block
check_block-IsStrong crypto none block key e p h = cc
check_block-IsStrong crypto (some b) block key e p h =
    let same : b ≡ block = cc e in check_key-IsStrong (crypto.parse_public_key b) key (rw same p) h

-- A PEM text is accepted as a public key exactly when it decodes to a block that parses as an RSA key
-- of at least 3065 bits, an ECDSA key on P-256, P-384 or P-521, or an Ed25519 key.
pub validate_pem_public_key_iff :
    (crypto : Crypto) (pem : String) (key : PublicKey)
    → (validate_pem_public_key crypto pem ≡ valid key) ↔ (
        (block : String) × (crypto.pem_decode pem ≡ some block)
        × (crypto.parse_public_key block ≡ some key)
        × IsStrong key)
unfolding validate_pem_public_key
validate_pem_public_key_iff crypto pem key = (
  λ h.
      let (block, decoded, parsed, ok) = check_block-valid crypto (crypto.pem_decode pem) h in
      (block, decoded, parsed, is_supported-IsStrong key ok),
  λ w. check_block-IsStrong crypto (crypto.pem_decode pem) w.0 key w.1 w.2 w.3,
)

-- The hours are exact while their nanoseconds fit an int64, up to 2562047 hours.
pub hours-exact : (n : ℕ) → n ≤ 2562047 → hours n ≡ pos (n * hour)
unfolding hours to_int64
hours-exact n h = ground arith

hours_wrap : (n : ℕ) → (n + 2 ^ 51) * hour % 2 ^ 64 ≡ n * hour % 2 ^ 64
hours_wrap n = omega arith

-- The wrap hides 2 ^ 51 hours from the maximum: a request of n + 2 ^ 51 hours is treated as one of
-- n hours, whatever the configuration and the caller.
pub choose_ttl-wrap :
    (config : Config) (claims : Claims) (n : ℕ)
    → choose_ttl config claims (some (n + 2 ^ 51)) ≡ choose_ttl config claims (some n)
unfolding choose_ttl hours to_int64
choose_ttl-wrap config claims n = rw (hours_wrap n)

module _ (config : Config) (claims : Claims) (input : IssueInput) where
  non_admin_ttl :
      (ttl : ℤ)
      → is_admin claims config ≡ false
      → config.default_certificate_ttl ≤ℤ config.max_certificate_ttl
      → TtlOrigin config claims input ttl
      → ttl ≤ℤ config.max_certificate_ttl
  non_admin_ttl ttl plain fits (by_default e same) = rw same fits
  non_admin_ttl ttl plain fits (asked n e same (inl admin)) = cc
  non_admin_ttl ttl plain fits (asked n e same (inr within)) = rw same within

  non_admin_subject :
      (subject : String)
      → is_admin claims config ≡ false
      → SubjectOrigin config claims input subject
      → subject ≡ claims.subject
  non_admin_subject subject plain (own e same) = same
  non_admin_subject subject plain (chosen e admin) = cc

-- A caller who is no administrator gets a certificate for the subject of the token alone, that
-- starts now and ends at most the maximum later, if the default is within the maximum.
pub non_admin_certificate :
    (crypto : Crypto) (config : Config) (draw : Draw) (input : IssueInput)
    (tls_cert : Option TlsCert) (ctx : Context) (claims : Claims) (out : IssueOutput)
    → ctx.claims ≡ some claims
    → is_admin claims config ≡ false
    → config.default_certificate_ttl ≤ℤ config.max_certificate_ttl
    → issue_handler crypto config draw tls_cert input ctx ≡ success out
    → (template : Template) × (ca : TlsCert) × (key : PublicKey) × (der : String) × (tls_cert
        ≡ some ca)
      × (crypto.create_certificate template ca.leaf key ca.private_key ≡ some der)
      × (out.certificate ≡ crypto.pem_encode "CERTIFICATE" der)
      × (template.common_name ≡ claims.subject)
      × (template.not_before ≡ draw.now)
      × (template.not_after ≤ℤ draw.now +ℤ config.max_certificate_ttl)
non_admin_certificate crypto config draw input tls_cert ctx claims out known plain fits h =
    let r = issue_handler-success crypto config draw input tls_cert ctx h in
    let same : r.claims ≡ claims = cc (known, r.identified) in
    let plain' : is_admin r.claims config ≡ false = rw same plain in
    let within = non_admin_ttl config r.claims input r.ttl plain' fits r.ttl_origin in
    let named = non_admin_subject config r.claims input r.subject plain' r.subject_origin in
    (
      make_template r.subject draw.now r.ttl,
      r.ca,
      r.key,
      r.der,
      r.loaded,
      r.created,
      r.encoded,
      cc (named, same),
      refl,
      +ℤ_mono_right draw.now r.ttl config.max_certificate_ttl within,
    )
