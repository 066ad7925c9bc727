-- ===== src/Certificate/Handler/Issue.antt =====
-- What `IssueHandler` of handler/handler.go has established when it returns a certificate.
use dt4mob_platform.Prelude.{◌≡◌, refl, Option, none, some, arith}
use dt4mob_platform.Prelude.Text.{String}
use dt4mob_platform.Prelude.Int.{ℤ}
use dt4mob_platform.Certificate.Config.{Config}
use dt4mob_platform.Certificate.Auth.{Claims, Context, Response, success, error, panic}
use dt4mob_platform.Certificate.Handler.{
  PublicKey, TlsCert, Crypto, Draw, IssueInput, IssueOutput, ◌>>=◌, choose_key, choose_ttl,
  choose_subject, make_template, issue_handler, issue_ready, issue_claims, issue_with, signed,
}
use dt4mob_platform.Certificate.Handler.Origins.{
  KeyOrigin, TtlOrigin, SubjectOrigin, choose_key-origin, choose_ttl-origin, choose_subject-origin,
}

>>=-success :
    {A B : Type 0} (m : Response A) (f : A → Response B) {b : B}
    → (m >>= f) ≡ success b
    → (a : A) × (m ≡ success a) × (f a ≡ success b)
>>=-success (success a) f h = (a, refl, h)
>>=-success (error status detail) f h = cc
>>=-success panic f h = cc

-- What stands behind a certificate that the handler returned: the CA in memory, the caller's claims,
-- and where the key, the validity period and the subject of the signed template come from.
pub record IsIssued (crypto : Crypto) (config : Config) (draw : Draw) (tls_cert : Option TlsCert)
    (input : IssueInput) (ctx : Context) (out : IssueOutput) : Type 0 where
  pub ca : TlsCert
  pub claims : Claims
  pub key : PublicKey
  pub ttl : ℤ
  pub subject : String
  pub der : String
  pub loaded : tls_cert ≡ some ca
  pub identified : ctx.claims ≡ some claims
  pub key_origin : KeyOrigin crypto draw input key
  pub ttl_origin : TtlOrigin config claims input ttl
  pub subject_origin : SubjectOrigin config claims input subject
  pub created :
      crypto.create_certificate (make_template subject draw.now ttl) ca.leaf key ca.private_key
      ≡ some der
  pub encoded : out.certificate ≡ crypto.pem_encode "CERTIFICATE" der

module _ (crypto : Crypto) (config : Config) (draw : Draw) (input : IssueInput) where
  signed-success :
      (private : String) (made : Option String) {out : IssueOutput}
      → signed crypto private made ≡ success out
      → (der : String) × (made ≡ some der) × (out.certificate ≡ crypto.pem_encode "CERTIFICATE" der)
  unfolding signed
  signed-success private none h = cc
  signed-success private (some der) h = (der, refl, ground arith)

  issue_with-success :
      (ca : TlsCert) (claims : Claims) (ctx : Context) {out : IssueOutput}
      → ctx.claims ≡ some claims
      → issue_with crypto config draw ca claims input ≡ success out
      → IsIssued crypto config draw (some ca) input ctx out
  unfolding issue_with
  issue_with-success ca claims ctx e h =
      let ((key, private), keyed, rest) = >>=-success (choose_key crypto draw input) _ h in
      let (ttl, timed, rest') = >>=-success (choose_ttl config claims input.time_to_live) _ rest in
      let (subject, named, rest'') =
        >>=-success (choose_subject config claims input.subject) _ rest' in
      let (der, created, encoded) = signed-success private _ rest'' in
      record {
        ca = ca;
        claims = claims;
        key = key;
        ttl = ttl;
        subject = subject;
        der = der;
        loaded = refl;
        identified = e;
        key_origin = choose_key-origin crypto draw input key private keyed;
        ttl_origin = choose_ttl-origin config claims input.time_to_live input refl timed;
        subject_origin = choose_subject-origin config claims input.subject input refl named;
        created = created;
        encoded = encoded;
      }

  issue_claims-success :
      (ca : TlsCert) (found : Option Claims) (ctx : Context) {out : IssueOutput}
      → ctx.claims ≡ found
      → issue_claims crypto config draw ca found input ≡ success out
      → IsIssued crypto config draw (some ca) input ctx out
  unfolding issue_claims
  issue_claims-success ca none ctx e h =
      let (key, keyed, stopped) = >>=-success (choose_key crypto draw input) _ h in cc stopped
  issue_claims-success ca (some claims) ctx e h = issue_with-success ca claims ctx e h

  -- A certificate is returned only with the CA loaded and the caller known; its key is the request's
  -- own, of a supported kind, or freshly drawn; its period is the default, or the hours asked for,
  -- within the maximum unless the caller is an administrator; its subject is the caller's own,
  -- unless an administrator chose it; and it is signed with exactly these.
  pub issue_handler-success :
      (tls_cert : Option TlsCert) (ctx : Context) {out : IssueOutput}
      → issue_handler crypto config draw tls_cert input ctx ≡ success out
      → IsIssued crypto config draw tls_cert input ctx out
  unfolding issue_handler issue_ready
  issue_handler-success none ctx h = cc
  issue_handler-success (some ca) ctx h = issue_claims-success ca ctx.claims ctx refl h
