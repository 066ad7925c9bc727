-- ===== src/Certificate/Handler/Origins.antt =====
-- Where the key, the validity period and the subject come from that `IssueHandler` of
-- handler/handler.go certifies.
use dt4mob_platform.Prelude.{
  ℕ, ◌≡◌, refl, ◌⊎◌, inl, inr, if◌then◌else◌, not, ◌&&◌, Bool, true, Option, none, some, arith,
  Bool-cases,
}
use dt4mob_platform.Prelude.Text.{String, ◌==◌, eq_iff}
use dt4mob_platform.Prelude.Int.{ℤ, ltb_ℤ, ◌≤ℤ◌}
use dt4mob_platform.Certificate.Config.{Config}
use dt4mob_platform.Certificate.Auth.{Claims, success, error, is_admin}
use dt4mob_platform.Certificate.Handler.{
  PublicKey, PrivateKey, Crypto, Draw, IssueInput, is_supported, Checked, valid, invalid, check_key,
  hours, validate_pem_public_key, choose_key, choose_ttl, choose_subject, given_key, marshalled,
  generated_key, check_block, err_cert_ttl_exceeds_max, err_subject_forbidden,
}

-- Where the certified key comes from: the request's PEM, as a key of a supported kind, or a key
-- that the service drew because the request has none.
pub data KeyOrigin (crypto : Crypto) (draw : Draw) (input : IssueInput) (key : PublicKey)
    : Type 0 where
  from_request :
      (block : String)
      → crypto.pem_decode input.public_key ≡ some block
      → crypto.parse_public_key block ≡ some key
      → is_supported key ≡ true
      → KeyOrigin crypto draw input key
  from_draw :
      (pair : PrivateKey)
      → input.public_key ≡ ""
      → draw.generated ≡ some pair
      → key ≡ pair.public
      → KeyOrigin crypto draw input key

-- The validity period: the default, or the hours asked for, which a caller who is no administrator
-- gets only within the maximum.
pub data TtlOrigin (config : Config) (claims : Claims) (input : IssueInput) (ttl : ℤ) : Type 0 where
  by_default :
      input.time_to_live ≡ none
      → ttl ≡ config.default_certificate_ttl
      → TtlOrigin config claims input ttl
  asked :
      (n : ℕ)
      → input.time_to_live ≡ some n
      → ttl ≡ hours n
      → (is_admin claims config ≡ true) ⊎ (hours n ≤ℤ config.max_certificate_ttl)
      → TtlOrigin config claims input ttl

-- The subject: the caller's own, or one that an administrator chose.
pub data SubjectOrigin (config : Config) (claims : Claims) (input : IssueInput) (subject : String)
    : Type 0 where
  own : input.subject ≡ none → subject ≡ claims.subject → SubjectOrigin config claims input subject
  chosen :
      input.subject ≡ some subject
      → is_admin claims config ≡ true
      → SubjectOrigin config claims input subject

module _ (crypto : Crypto) where
  check_key-valid :
      (found : Option PublicKey) {key : PublicKey}
      → check_key found ≡ valid key
      → (found ≡ some key) × (is_supported key ≡ true)
  check_key-valid none h = cc
  check_key-valid (some key) h = ground arith

  pub check_block-valid :
      (found : Option String) {key : PublicKey}
      → check_block crypto found ≡ valid key
      → (block : String) × (found ≡ some block)
        × (crypto.parse_public_key block ≡ some key)
        × (is_supported key ≡ true)
  unfolding check_block
  check_block-valid none h = cc
  check_block-valid (some block) h =
      let (parsed, supported) = check_key-valid (crypto.parse_public_key block) h in
      (block, refl, parsed, supported)

  given_key-success :
      (checked : Checked PublicKey) {key : PublicKey} {private : String}
      → given_key crypto checked ≡ success (key, private)
      → checked ≡ valid key
  unfolding given_key
  given_key-success (invalid detail) h = cc
  given_key-success (valid key) h = ground arith

  marshalled-success :
      (public : PublicKey) (der : Option String) {key : PublicKey} {private : String}
      → marshalled crypto public der ≡ success (key, private)
      → key ≡ public
  unfolding marshalled
  marshalled-success public none h = cc
  marshalled-success public (some der) h = ground arith

  generated_key-success :
      (drawn : Option PrivateKey) {key : PublicKey} {private : String}
      → generated_key crypto drawn ≡ success (key, private)
      → (pair : PrivateKey) × (drawn ≡ some pair) × (key ≡ pair.public)
  unfolding generated_key
  generated_key-success none h = cc
  generated_key-success (some pair) h = (pair, refl, marshalled-success pair.public _ h)

  module _ (draw : Draw) (input : IssueInput) where
    pub choose_key-origin :
        (key : PublicKey) (private : String)
        → choose_key crypto draw input ≡ success (key, private)
        → KeyOrigin crypto draw input key
    unfolding choose_key validate_pem_public_key
    choose_key-origin key private h = elim (Bool-cases (input.public_key == "")) [
      | inl e ↦
          let (pair, drawn, same) = generated_key-success draw.generated (rw e at h) in
          from_draw pair ((eq_iff _ _).0 e) drawn same
      | inr e ↦
          let checked = given_key-success _ (rw e at h) in
          let (block, decoded, parsed, supported) =
            check_block-valid (crypto.pem_decode input.public_key) checked in
          from_request block decoded parsed supported
    ]

module _ (config : Config) (claims : Claims) where
  ttl_choice :
      (admin : Bool) (n : ℕ) {ttl : ℤ}
      → (if not admin && ltb_ℤ config.max_certificate_ttl (hours n)
          then error 400 err_cert_ttl_exceeds_max
          else success (hours n))
        ≡ success ttl
      → (ttl ≡ hours n) × ((admin ≡ true) ⊎ (hours n ≤ℤ config.max_certificate_ttl))
  ttl_choice admin n h = ground arith

  pub choose_ttl-origin :
      (asked_for : Option ℕ) {ttl : ℤ} (input : IssueInput)
      → input.time_to_live ≡ asked_for
      → choose_ttl config claims asked_for ≡ success ttl
      → TtlOrigin config claims input ttl
  unfolding choose_ttl
  choose_ttl-origin none input e h = by_default e (ground arith)
  choose_ttl-origin (some n) input e h =
      let (same, limit) = ttl_choice (is_admin claims config) n h in asked n e same limit

  subject_choice :
      (admin : Bool) (name : String) {subject : String}
      → (if not admin then error 403 err_subject_forbidden else success name) ≡ success subject
      → (name ≡ subject) × (admin ≡ true)
  subject_choice admin name h = ground arith

  pub choose_subject-origin :
      (wanted : Option String) {subject : String} (input : IssueInput)
      → input.subject ≡ wanted
      → choose_subject config claims wanted ≡ success subject
      → SubjectOrigin config claims input subject
  unfolding choose_subject
  choose_subject-origin none input e h = own e (ground arith)
  choose_subject-origin (some name) input e h =
      let (same, admin) = subject_choice (is_admin claims config) name h in
      chosen (cc (e, same)) admin
