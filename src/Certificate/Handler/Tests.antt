-- ===== src/Certificate/Handler/Tests.antt =====
-- The handler on the sample.
use dt4mob_platform.Prelude.{◌≡◌, refl, ◌+◌, ◌^◌, ◌*◌, ◌↔◌, Option, some, arith}
use dt4mob_platform.Prelude.Text.{String}
use dt4mob_platform.Prelude.Int.{pos, ◌+ℤ◌, ◌≤ℤ◌}
use dt4mob_platform.Certificate.Auth.{success, error, is_admin}
use dt4mob_platform.Certificate.Sample.{config, claims, known, key, crypto, draw, ca, input, output}
use dt4mob_platform.Certificate.Handler.{
  Template, TlsCert, PublicKey, invalid, valid, err_unsupported_public_key,
  err_cert_ttl_exceeds_max, choose_ttl, hour, issue_handler, validate_pem_public_key, choose_key,
  choose_subject, is_supported,
}
use dt4mob_platform.Certificate.Handler.Issue.{IsIssued, issue_handler-success}
use dt4mob_platform.Certificate.Handler.Validity.{
  IsStrong, validate_pem_public_key_iff, choose_ttl-wrap, non_admin_certificate,
}

issued : issue_handler crypto config draw (some ca) input known ≡ success output
unfolding issue_handler choose_key choose_ttl choose_subject validate_pem_public_key is_supported
issued = refl

weak_refused : validate_pem_public_key crypto "weak" ≡ invalid err_unsupported_public_key
unfolding validate_pem_public_key is_supported
weak_refused = refl

too_long : choose_ttl config claims (some 2161) ≡ error 400 err_cert_ttl_exceeds_max
unfolding choose_ttl
too_long = refl

-- 2 ^ 51 + 2160 hours pass where 2161 hours do not.
wrapped : choose_ttl config claims (some (2 ^ 51 + 2160)) ≡ success (pos (2160 * hour))
unfolding choose_ttl
wrapped = refl

issue_handler-success_example : IsIssued crypto config draw (some ca) input known output
issue_handler-success_example =
    issue_handler-success crypto config draw input (some ca) known issued

validate_pem_public_key_iff_example : (validate_pem_public_key crypto "device" ≡ valid key) ↔ (
    (block : String) × (crypto.pem_decode "device" ≡ some block)
    × (crypto.parse_public_key block ≡ some key)
    × IsStrong key)
validate_pem_public_key_iff_example = validate_pem_public_key_iff crypto "device" key

choose_ttl-wrap_example :
    choose_ttl config claims (some (5 + 2 ^ 51)) ≡ choose_ttl config claims (some 5)
choose_ttl-wrap_example = choose_ttl-wrap config claims 5

non_admin_certificate_example :
    (template : Template) × (holder : TlsCert) × (public : PublicKey) × (der : String) × (◌≡◌
      {A = Option TlsCert}
      (some ca)
      (some holder))
    × (crypto.create_certificate template holder.leaf public holder.private_key ≡ some der)
    × (output.certificate ≡ crypto.pem_encode "CERTIFICATE" der)
    × (template.common_name ≡ claims.subject)
    × (template.not_before ≡ draw.now)
    × (template.not_after ≤ℤ draw.now +ℤ config.max_certificate_ttl)
unfolding is_admin
non_admin_certificate_example =
    non_admin_certificate crypto config draw input (some ca) known claims output refl refl
      (omega arith) issued
