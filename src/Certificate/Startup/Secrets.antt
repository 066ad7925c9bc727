-- ===== src/Certificate/Startup/Secrets.antt =====
-- The TLS pair that main.go keeps in memory while the watched secret changes.
use dt4mob_platform.Prelude.{
  ◌≡◌, refl, ◌∙◌, true, Option, none, some, List, [], ◌∷◌, ◌++◌, arith, is_some,
}
use dt4mob_platform.Prelude.Text.{String, lookup}
use dt4mob_platform.Certificate.Config.{Config}
use dt4mob_platform.Certificate.Handler.{TlsCert, ready_handler}
use dt4mob_platform.Certificate.Startup.{
  Secret, EventType, added, modified, deleted, bookmark, watch_error, WatchEvent, pair,
  load_tls_cert, update_tls_cert, on_event, watch, run_secrets,
}

-- The versions of the secret that a watch shows: what it adds and modifies.
abbrev pub with_version : EventType → Secret → List Secret → List Secret
with_version added secret rest = secret ∷ rest
with_version modified secret rest = secret ∷ rest
with_version deleted secret rest = rest
with_version bookmark secret rest = rest
with_version watch_error secret rest = rest

pub versions : List WatchEvent → List Secret
versions [] = []
versions (event ∷ events) = with_version event.type event.object (versions events)

-- The pairs of some versions of the secret, in order: those of the versions that hold a certificate
-- under the one key and a private key under the other which fit.
module _ (x509_key_pair : String → String → Option TlsCert) (config : Config) where
  abbrev with_pair : Option TlsCert → List TlsCert → List TlsCert
  with_pair none rest = rest
  with_pair (some cert) rest = cert ∷ rest

  abbrev with_parts : Option String → Option String → List TlsCert → List TlsCert
  with_parts (some cert) (some key) rest = with_pair (x509_key_pair cert key) rest
  with_parts (some cert) none rest = rest
  with_parts none key rest = rest

  pub offered : List Secret → List TlsCert
  offered [] = []
  offered (secret ∷ secrets) =
      with_parts (lookup config.secret_cert_selector secret.data_of)
        (lookup config.secret_key_selector secret.data_of) (offered secrets)

abbrev pub last_of : Option TlsCert → List TlsCert → Option TlsCert
last_of held [] = held
last_of held (cert ∷ certs) = last_of (some cert) certs

ready-is_some : (held : Option TlsCert) → ready_handler held ≡ 204 → is_some held ≡ true
unfolding ready_handler
ready-is_some none h = absurd (omega arith)
ready-is_some (some cert) h = refl

is_some-ready : (held : Option TlsCert) → is_some held ≡ true → ready_handler held ≡ 204
unfolding ready_handler
is_some-ready none h = cc
is_some-ready (some cert) h = refl

module _ (x509_key_pair : String → String → Option TlsCert) (config : Config) where
  last_of-with_pair :
      (held loaded : Option TlsCert) (rest : List TlsCert)
      → last_of (update_tls_cert x509_key_pair config loaded held) rest
        ≡ last_of held (with_pair x509_key_pair config loaded rest)
  last_of-with_pair held none rest = refl
  last_of-with_pair held (some cert) rest = refl

  last_of-with_parts :
      (held : Option TlsCert) (cert key : Option String) (rest : List TlsCert)
      → last_of
          (update_tls_cert x509_key_pair config (pair x509_key_pair config cert key) held)
          rest
        ≡ last_of held (with_parts x509_key_pair config cert key rest)
  unfolding pair
  last_of-with_parts held none key rest = refl
  last_of-with_parts held (some cert) none rest = refl
  last_of-with_parts held (some cert) (some key) rest =
      last_of-with_pair held (x509_key_pair cert key) rest

  last_of-secret :
      (held : Option TlsCert) (secret : Secret) (secrets : List Secret)
      → last_of
          (update_tls_cert x509_key_pair config (load_tls_cert x509_key_pair config secret) held)
          (offered x509_key_pair config secrets)
        ≡ last_of held (offered x509_key_pair config (secret ∷ secrets))
  unfolding load_tls_cert offered
  last_of-secret held secret secrets =
      last_of-with_parts held (lookup config.secret_cert_selector secret.data_of)
        (lookup config.secret_key_selector secret.data_of) (offered x509_key_pair config secrets)

  last_of-event :
      (type : EventType) (held : Option TlsCert) (secret : Secret) (secrets : List Secret)
      → last_of
          (on_event x509_key_pair config held (record { type = type; object = secret }))
          (offered x509_key_pair config secrets)
        ≡ last_of held (offered x509_key_pair config (with_version type secret secrets))
  unfolding on_event
  last_of-event added held secret secrets = last_of-secret held secret secrets
  last_of-event modified held secret secrets = last_of-secret held secret secrets
  last_of-event deleted held secret secrets = refl
  last_of-event bookmark held secret secrets = refl
  last_of-event watch_error held secret secrets = refl

  watch-eq-last :
      (held : Option TlsCert) (events : List WatchEvent)
      → watch x509_key_pair config held events
        ≡ last_of held (offered x509_key_pair config (versions events))
  unfolding watch versions offered
  watch-eq-last held [] = refl
  watch-eq-last held (event ∷ events) =
      watch-eq-last (on_event x509_key_pair config held event) events
      ∙ last_of-event event.type held event.object (versions events)

  -- In memory is the last pair that the secret has had, from its first version on: a version counts
  -- if it was read at the start, added or modified, and has a pair if the certificate and the private
  -- key stand under the configured keys and fit. Any other version, and a deletion, changes nothing.
  pub run_secrets-eq-last :
      (first : Secret) (events : List WatchEvent)
      → run_secrets x509_key_pair config first events
        ≡ last_of none (offered x509_key_pair config (first ∷ versions events))
  unfolding run_secrets
  run_secrets-eq-last first events =
      watch-eq-last
        (update_tls_cert x509_key_pair config (load_tls_cert x509_key_pair config first) none)
        events
      ∙ last_of-secret none first (versions events)

  watch-append :
      (held : Option TlsCert) (events more : List WatchEvent)
      → watch x509_key_pair config held (events ++ more)
        ≡ watch x509_key_pair config (watch x509_key_pair config held events) more
  unfolding watch
  watch-append held [] more = refl
  watch-append held (event ∷ events) more =
      watch-append (on_event x509_key_pair config held event) events more

  on_event-is_some :
      (held : Option TlsCert) (event : WatchEvent)
      → is_some held ≡ true
      → is_some (on_event x509_key_pair config held event) ≡ true
  unfolding on_event
  on_event-is_some held event h = ground arith

  watch-is_some :
      (held : Option TlsCert) (events : List WatchEvent)
      → is_some held ≡ true
      → is_some (watch x509_key_pair config held events) ≡ true
  unfolding watch
  watch-is_some held [] h = h
  watch-is_some held (event ∷ events) h =
      watch-is_some (on_event x509_key_pair config held event) events
        (on_event-is_some held event h)

  -- Once the readiness probe answers 204 it does so after every later event of the watch.
  pub ready_handler-stays :
      (first : Secret) (events more : List WatchEvent)
      → ready_handler (run_secrets x509_key_pair config first events) ≡ 204
      → ready_handler (run_secrets x509_key_pair config first (events ++ more)) ≡ 204
  unfolding run_secrets
  ready_handler-stays first events more h =
      let held =
        update_tls_cert x509_key_pair config (load_tls_cert x509_key_pair config first) none in
      rw (watch-append held events more) (
        is_some-ready _
          (watch-is_some _ more (ready-is_some (watch x509_key_pair config held events) h)))
