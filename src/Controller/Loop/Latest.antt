-- ===== src/Controller/Loop/Latest.antt =====
-- What the controller of main.go holds of each secret and config map: its last version that had the key.
use dt4mob_platform.Prelude.{◌≡◌, refl, ap, ◌∙◌, Option, none, some, List, [], ◌∷◌}
use dt4mob_platform.Prelude.Text.{String, lookup}
use dt4mob_platform.Controller.State.{Config, State, KeyPair}
use dt4mob_platform.Controller.Http.{Codec}
use dt4mob_platform.Controller.Loop.{
  DataMap, Event, tls_secret, ca_secret, tenant_trust_secret, devops_secret, tenant_config_map,
  retry_tick, load, with_text, with_tls, with_key_pair,
}
use dt4mob_platform.Controller.Loop.Invariant.{settled, arrived}

abbrev pub key_of : String → Option DataMap → Option String
key_of key none = none
key_of key (some found) = lookup key found

abbrev pub ca_of : Event → Option DataMap
ca_of (ca_secret found) = some found
ca_of _ = none

abbrev pub trust_of : Event → Option DataMap
trust_of (tenant_trust_secret found) = some found
trust_of _ = none

abbrev pub devops_of : Event → Option DataMap
devops_of (devops_secret found) = some found
devops_of _ = none

abbrev pub tenant_of : Event → Option DataMap
tenant_of (tenant_config_map found) = some found
tenant_of _ = none

abbrev wrapped : Option KeyPair → Option (Option KeyPair)
wrapped none = none
wrapped (some pair) = some (some pair)

-- The key pair of a certificate and a key that fit.
abbrev pub pair_of : Codec → Option String → Option String → Option (Option KeyPair)
pair_of codec none key = none
pair_of codec (some crt) none = none
pair_of codec (some crt) (some key) = wrapped (codec.x509_key_pair crt key)

abbrev pub pair_in : Codec → Config → Event → Option (Option KeyPair)
pair_in codec config (tls_secret found) =
    pair_of codec (lookup config.tls_secret_crt_selector found)
      (lookup config.tls_secret_key_selector found)
pair_in codec config _ = none

abbrev pub or_held {ℓ} : {A : Type ℓ} → A → Option A → A
or_held held none = held
or_held held (some new) = new

-- The last that a reading finds in the events, or what was held before.
abbrev pub latest {ℓ} : {A : Type ℓ} → (Event → Option A) → A → List Event → A
latest read held [] = held
latest read held (event ∷ events) = latest read (or_held held (read event)) events

abbrev pub ca_in : Config → Event → Option String
ca_in config event = key_of config.ca_secret_selector (ca_of event)

abbrev pub trust_in : Config → Event → Option String
trust_in config event = key_of config.tenant_tls_trust_secret_selector (trust_of event)

abbrev pub devops_in : Config → Event → Option String
devops_in config event = key_of config.devops_secret_selector (devops_of event)

abbrev pub tenant_in : Config → Event → Option String
tenant_in config event = key_of config.tenant_config_map_selector (tenant_of event)

-- Each part of the state is the last one that came, of its own secret or config map and under its own
-- key; the rest is as it was.
pub record IsLatest (codec : Codec) (config : Config) (state : State) (events : List Event)
    (s : State) : Type 0 where
  pub key_pair : s.key_pair ≡ latest (pair_in codec config) state.key_pair events
  pub ca_crt : s.ca_crt ≡ latest (ca_in config) state.ca_crt events
  pub trust_crt : s.trust_crt ≡ latest (trust_in config) state.trust_crt events
  pub devops_password : s.devops_password ≡ latest (devops_in config) state.devops_password events
  pub tenant : s.tenant ≡ latest (tenant_in config) state.tenant events
  pub kafka_host : s.kafka_host ≡ state.kafka_host

module _ (codec : Codec) (config : Config) where
  -- What one event makes of the state.
  abbrev Takes : State → Event → State → Type 0
  Takes state e s = IsLatest codec config state (e ∷ []) s

  takes_pair :
      (state : State) (pair : Option KeyPair)
      → let s = settled state (with_key_pair codec config state pair) in
        (s.key_pair ≡ or_held state.key_pair (wrapped pair))
        × (s ≡ record state { key_pair = s.key_pair })
  takes_pair state none = (refl, refl)
  takes_pair state (some pair) = (refl, refl)

  takes_text :
      (f : String → State) (state : State) (part : State → String) (text : Option String)
      → ((t : String) → part (f t) ≡ t)
      → part (settled state (with_text f text)) ≡ or_held (part state) text
  takes_text f state part none same = refl
  takes_text f state part (some t) same = same t

  keeps_text :
      {A : Type 0} (f : String → State) (state : State) (part : State → A) (text : Option String)
      → ((t : String) → part (f t) ≡ part state)
      → part (settled state (with_text f text)) ≡ part state
  keeps_text f state part none same = refl
  keeps_text f state part (some t) same = same t

  takes_tls :
      (state : State) (key crt : Option String)
      → let s = settled state (with_tls codec config state key crt) in
        (s.key_pair ≡ or_held state.key_pair (pair_of codec crt key))
        × (s ≡ record state { key_pair = s.key_pair })
  takes_tls state none none = (refl, refl)
  takes_tls state none (some crt) = (refl, refl)
  takes_tls state (some key) none = (refl, refl)
  takes_tls state (some key) (some crt) = takes_pair state (codec.x509_key_pair crt key)

  load-Takes :
      (state : State) (event : Event)
      → Takes state event (settled state (load codec config state event))
  unfolding load
  load-Takes state (tls_secret found) =
      let (pair, rest) =
        takes_tls state (lookup config.tls_secret_key_selector found)
          (lookup config.tls_secret_crt_selector found) in
      record {
        key_pair = pair;
        ca_crt = ap (λ s. s.ca_crt) rest;
        trust_crt = ap (λ s. s.trust_crt) rest;
        devops_password = ap (λ s. s.devops_password) rest;
        tenant = ap (λ s. s.tenant) rest;
        kafka_host = ap (λ s. s.kafka_host) rest;
      }
  load-Takes state (ca_secret found) =
      let f = λ (t : String). record state { ca_crt = t } in
      let text = lookup config.ca_secret_selector found in
      record {
        key_pair = keeps_text f state (λ s. s.key_pair) text (λ t. refl);
        ca_crt = takes_text f state (λ s. s.ca_crt) text (λ t. refl);
        trust_crt = keeps_text f state (λ s. s.trust_crt) text (λ t. refl);
        devops_password = keeps_text f state (λ s. s.devops_password) text (λ t. refl);
        tenant = keeps_text f state (λ s. s.tenant) text (λ t. refl);
        kafka_host = keeps_text f state (λ s. s.kafka_host) text (λ t. refl);
      }
  load-Takes state (tenant_trust_secret found) =
      let f = λ (t : String). record state { trust_crt = t } in
      let text = lookup config.tenant_tls_trust_secret_selector found in
      record {
        key_pair = keeps_text f state (λ s. s.key_pair) text (λ t. refl);
        ca_crt = keeps_text f state (λ s. s.ca_crt) text (λ t. refl);
        trust_crt = takes_text f state (λ s. s.trust_crt) text (λ t. refl);
        devops_password = keeps_text f state (λ s. s.devops_password) text (λ t. refl);
        tenant = keeps_text f state (λ s. s.tenant) text (λ t. refl);
        kafka_host = keeps_text f state (λ s. s.kafka_host) text (λ t. refl);
      }
  load-Takes state (devops_secret found) =
      let f = λ (t : String). record state { devops_password = t } in
      let text = lookup config.devops_secret_selector found in
      record {
        key_pair = keeps_text f state (λ s. s.key_pair) text (λ t. refl);
        ca_crt = keeps_text f state (λ s. s.ca_crt) text (λ t. refl);
        trust_crt = keeps_text f state (λ s. s.trust_crt) text (λ t. refl);
        devops_password = takes_text f state (λ s. s.devops_password) text (λ t. refl);
        tenant = keeps_text f state (λ s. s.tenant) text (λ t. refl);
        kafka_host = keeps_text f state (λ s. s.kafka_host) text (λ t. refl);
      }
  load-Takes state (tenant_config_map found) =
      let f = λ (t : String). record state { tenant = t } in
      let text = lookup config.tenant_config_map_selector found in
      record {
        key_pair = keeps_text f state (λ s. s.key_pair) text (λ t. refl);
        ca_crt = keeps_text f state (λ s. s.ca_crt) text (λ t. refl);
        trust_crt = keeps_text f state (λ s. s.trust_crt) text (λ t. refl);
        devops_password = keeps_text f state (λ s. s.devops_password) text (λ t. refl);
        tenant = takes_text f state (λ s. s.tenant) text (λ t. refl);
        kafka_host = keeps_text f state (λ s. s.kafka_host) text (λ t. refl);
      }
  load-Takes state retry_tick = record {
    key_pair = refl;
    ca_crt = refl;
    trust_crt = refl;
    devops_password = refl;
    tenant = refl;
    kafka_host = refl;
  }

  latest_of :
      {A : Type 0} (read : Event → Option A) (held new : A) (event : Event) (events : List Event)
      → new ≡ or_held held (read event)
      → latest read new events ≡ latest read held (event ∷ events)
  latest_of read held new event events e = ap (λ x. latest read x events) e

  pub arrived-IsLatest :
      (events : List Event) (state : State)
      → IsLatest codec config state events (arrived codec config state events)
  arrived-IsLatest [] state = record {
    key_pair = refl;
    ca_crt = refl;
    trust_crt = refl;
    devops_password = refl;
    tenant = refl;
    kafka_host = refl;
  }
  arrived-IsLatest (event ∷ events) state =
      let one = load-Takes state event in
      let rest = arrived-IsLatest events (settled state (load codec config state event)) in
      record {
        key_pair =
            rest.key_pair
            ∙ latest_of (pair_in codec config) state.key_pair _ event events one.key_pair;
        ca_crt = rest.ca_crt ∙ latest_of (ca_in config) state.ca_crt _ event events one.ca_crt;
        trust_crt =
            rest.trust_crt
            ∙ latest_of (trust_in config) state.trust_crt _ event events one.trust_crt;
        devops_password =
            rest.devops_password
            ∙ latest_of (devops_in config) state.devops_password _ event events one.devops_password;
        tenant = rest.tenant ∙ latest_of (tenant_in config) state.tenant _ event events one.tenant;
        kafka_host = rest.kafka_host ∙ one.kafka_host;
      }
