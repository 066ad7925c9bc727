-- ===== src/Controller/Startup/Settled.antt =====
-- What main.go has settled before its loop, and what it keeps from there on.
use mathlib.Core.Option.{some-injective}
use mathlib.Core.Path.{subst}
use dt4mob_platform.Prelude.{
  ◌+◌, ◌≤◌, ◌^◌, length, Bool, true, false, if◌then◌else◌, ◌≡◌, inl, refl, sym, Option, none, some,
  List, arith,
}
use dt4mob_platform.Prelude.Text.{String}
use dt4mob_platform.Prelude.Chain.{>>=-eq-some}
use dt4mob_platform.Controller.State.{Config, State, missing_initialization}
use dt4mob_platform.Controller.Http.{Net, Codec, returned}
use dt4mob_platform.Controller.Http.Bind.{Runs, returned_value}
use dt4mob_platform.Controller.Loop.{Event, Loop, run}
use dt4mob_platform.Controller.Loop.Invariant.{IsSound, IsWanting, arrived, run-IsSound, run-waits}
use dt4mob_platform.Controller.Loop.Latest.{IsLatest, arrived-IsLatest}
use dt4mob_platform.Controller.Startup.Services.{
  IsServed, IsAddress, IsHost, wait_service-IsServed, address-IsAddress, host_of-IsHost,
}
use dt4mob_platform.Controller.Startup.{
  policy_of, main_from, Service, Cluster, wait_service, address, host_of, settle_config, Embedded,
  Tools, new_state, start, first_loop, watches, main,
}
use dt4mob_platform.Controller.Startup.Configured.{IsConfigured, settle_config-IsConfigured}

watched-some :
    {A : Type 0} (b : Bool) (x : A) {y : A}
    → (if b then some x else none) ≡ some y
    → (b ≡ true) × (x ≡ y)
watched-some true x h = (refl, some-injective _ _ h)
watched-some false x h = cc h

-- The cluster lets the four secrets and the config map of the tenant be watched.
pub record IsWatched (cluster : Cluster) (config : Config) : Type 0 where
  pub tls : cluster.watch_secret config.namespace config.tls_secret_name ≡ true
  pub ca : cluster.watch_secret config.namespace config.ca_secret_name ≡ true
  pub trust : cluster.watch_secret config.namespace config.tenant_tls_trust_secret_name ≡ true
  pub devops : cluster.watch_secret config.namespace config.devops_secret_name ≡ true
  pub tenant : cluster.watch_config_map config.namespace config.tenant_config_map_name ≡ true

module _ (codec : Codec) (tools : Tools) (embedded : Embedded) where
  -- Nothing that the watches bring is there yet.
  new_state-wants :
      (kafka_host : String) (state : State)
      → new_state codec tools embedded kafka_host ≡ some state
      → (state.kafka_host ≡ kafka_host) × (missing_initialization state ≡ "Tenant")
  unfolding new_state missing_initialization
  new_state-wants kafka_host state h =
      let (hono, _, h₁) = >>=-eq-some (tools.create_template embedded.hono_connection) _ h in
      let (export, _, h₂) = >>=-eq-some (tools.create_template embedded.export_connection) _ h₁ in
      let (policy, _, h₃) =
        >>=-eq-some (policy_of (codec.unmarshal embedded.system_service_policy)) _ h₂ in
      subst (λ s. (s.kafka_host ≡ kafka_host) × (missing_initialization s ≡ "Tenant"))
        (some-injective _ _ h₃) (refl, refl)

  watches-IsWatched :
      (cluster : Cluster) (config : Config)
      → watches codec tools embedded cluster config ≡ true
      → IsWatched cluster config
  watches-IsWatched cluster config h = record {
    tls = ground arith;
    ca = ground arith;
    trust = ground arith;
    devops = ground arith;
    tenant = ground arith;
  }

  -- What a start that came to the loop has found: the configuration of the environment, with the
  -- namespace of the service account and the addresses of the services where it left them out;
  -- the three services, each awaited; the watches; and a state that waits for the tenant.
  pub record IsSettled (namespace_file : Option String) (read config : Config) (cluster : Cluster)
      (state : State) : Type 0 where
    pub base : Config
    pub configured : IsConfigured namespace_file read base
    pub kept :
        config
        ≡ record base { registry_host = config.registry_host; ditto_host = config.ditto_host }
    pub registry : Service
    pub registry_served : IsServed cluster base base.registry_service registry
    pub registry_host :
        IsHost codec.decimal base.registry_host base.registry_service registry config.registry_host
    pub ditto : Service
    pub ditto_served : IsServed cluster base base.ditto_service ditto
    pub ditto_host : IsHost codec.decimal base.ditto_host base.ditto_service ditto config.ditto_host
    pub kafka : Service
    pub kafka_served : IsServed cluster base base.kafka_service kafka
    pub kafka_host :
        IsAddress codec.decimal "" base.kafka_service kafka "tcp-clients" state.kafka_host
    pub watched : IsWatched cluster base
    pub wants : missing_initialization state ≡ "Tenant"

  pub start-IsSettled :
      (read : Config) (namespace_file : Option String) (cluster : Cluster) (config : Config)
      (state : State)
      → start codec tools embedded (some read) namespace_file (some cluster) ≡ some (config, state)
      → IsSettled namespace_file read config cluster state
  unfolding start
  start-IsSettled read namespace_file cluster config state h =
      let (base, configured, h₁) =
        >>=-eq-some (settle_config tools.is_level namespace_file read) _ h in
      let (registry, registry_found, h₂) =
        >>=-eq-some (wait_service cluster base base.registry_service) _ h₁ in
      let (registry_host, registry_at, h₃) =
        >>=-eq-some (host_of codec.decimal base.registry_host base.registry_service registry.0) _
          h₂ in
      let (ditto, ditto_found, h₄) =
        >>=-eq-some (wait_service cluster base base.ditto_service) _ h₃ in
      let (ditto_host, ditto_at, h₅) =
        >>=-eq-some (host_of codec.decimal base.ditto_host base.ditto_service ditto.0) _ h₄ in
      let (kafka, kafka_found, h₆) =
        >>=-eq-some (wait_service cluster base base.kafka_service) _ h₅ in
      let (kafka_host, kafka_at, h₇) =
        >>=-eq-some (address codec.decimal "" base.kafka_service kafka.0 "tcp-clients") _ h₆ in
      let (fresh, made, h₈) = >>=-eq-some (new_state codec tools embedded kafka_host) _ h₇ in
      let (same_host, wants) = new_state-wants kafka_host fresh made in
      let (can_watch, pair) = watched-some (watches codec tools embedded cluster base) _ h₈ in
      let settled : IsSettled namespace_file read
          (record base { registry_host = registry_host; ditto_host = ditto_host }) cluster fresh =
        record {
          base = base;
          configured =
              settle_config-IsConfigured tools.is_level namespace_file read base configured;
          kept = refl;
          registry = registry.0;
          registry_served =
              wait_service-IsServed cluster base base.registry_service registry registry_found;
          registry_host =
              host_of-IsHost codec.decimal base.registry_host base.registry_service registry.0
                registry_host registry_at;
          ditto = ditto.0;
          ditto_served = wait_service-IsServed cluster base base.ditto_service ditto ditto_found;
          ditto_host =
              host_of-IsHost codec.decimal base.ditto_host base.ditto_service ditto.0 ditto_host
                ditto_at;
          kafka = kafka.0;
          kafka_served = wait_service-IsServed cluster base base.kafka_service kafka kafka_found;
          kafka_host =
              subst (IsAddress codec.decimal "" base.kafka_service kafka.0 "tcp-clients")
                (sym same_host)
                (address-IsAddress codec.decimal "" base.kafka_service kafka.0 "tcp-clients"
                  kafka_host kafka_at);
          watched = watches-IsWatched cluster base can_watch;
          wants = wants;
        } in
      subst (λ (p : Config × State). IsSettled namespace_file read p.0 cluster p.1) pair settled

  main_from-Runs :
      {World : Type 0} (net : Net World) (events : List Event) (r : Option (Config × State))
      (w w' : World) (loop : Loop)
      → Runs (main_from codec tools embedded net events r) w loop w'
      → (config : Config) × (state : State) × (r ≡ some (config, state))
        × Runs (run net codec config (first_loop codec tools embedded state) events) w loop w'
  main_from-Runs net events none w w' loop h = cc (returned_value h).0
  main_from-Runs net events (some (config, state)) w w' loop h = (config, state, refl, h)

  first_loop-IsSound : (state : State) → IsSound state 0 (first_loop codec tools embedded state)
  first_loop-IsSound state = record {
    loaded = refl;
    budget = omega arith;
    lowest = omega arith;
    armed_initialized = inl refl;
  }

  -- If the controller is still running after some events, then its start settled the configuration,
  -- with the three services known and awaited, the watches begun and a state that waited for the
  -- tenant (IsSettled); its loop has on top of that state the last value that came of each secret and
  -- config map under its key (IsLatest), has at most five retries left, and has one pending only if no
  -- part of its state is missing (IsSound). There are at most 2 ^ 63 events, in which the count does
  -- not wrap.
  pub main-IsSound :
      {World : Type 0} (net : Net World) (read : Config) (namespace_file : Option String)
      (cluster : Cluster) (events : List Event) (w w' : World) (loop : Loop)
      → length events ≤ 2 ^ 63
      → Runs
          (main codec tools embedded net (some read) namespace_file (some cluster) events)
          w
          loop
          w'
      → (config : Config) × (state : State) × IsSettled namespace_file read config cluster state
        × IsLatest codec config state events loop.state
        × IsSound (arrived codec config state events) (length events) loop
  unfolding main
  main-IsSound net read namespace_file cluster events w w' loop few h =
      let (config, state, started, ran) =
        main_from-Runs net events
          (start codec tools embedded (some read) namespace_file (some cluster)) w w' loop h in
      let sound =
        run-IsSound net codec config events state 0 (first_loop codec tools embedded state) loop w
          w' (omega (arith, few)) (first_loop-IsSound state) ran in
      let same : 0 + length events ≡ length events = omega arith in
      (
        config,
        state,
        start-IsSettled read namespace_file cluster config state started,
        subst (IsLatest codec config state events) (sym sound.loaded)
            (arrived-IsLatest codec config events state),
        subst (λ n. IsSound (arrived codec config state events) n loop) same sound,
      )

  -- The controller whose start comes to the loop sends nothing, does not panic and has no retry
  -- pending as long as no start of the events has given it a state with all its parts; it only takes
  -- up what has arrived.
  pub main_waits :
      {World : Type 0} (net : Net World) (read : Option Config) (namespace_file : Option String)
      (cluster : Option Cluster) (events : List Event) (config : Config) (state : State) (w : World)
      → start codec tools embedded read namespace_file cluster ≡ some (config, state)
      → IsWanting codec config state events
      → main codec tools embedded net read namespace_file cluster events w
        ≡ (returned (first_loop codec tools embedded (arrived codec config state events)), w)
  unfolding main
  main_waits net read namespace_file cluster events config state w started wanting =
      rw started (run-waits net codec config events state w wanting)
