-- ===== src/Controller/Startup.antt =====
-- services/dt4mob-controller: how `main` of main.go comes to its loop, with WaitService and
-- GetPortByName of utils/utils.go and NewState of state/state.go. `none` is a panic.
pub mod Services
pub mod Configured
pub mod Settled
mod Tests
use Prim.Native.String.{◌++◌}
use dt4mob_platform.Prelude.{
  ℕ, Bool, true, false, ◌&&◌, Option, none, some, List, [], ◌∷◌, any, if◌then◌else◌,
}
use dt4mob_platform.Prelude.Chain.{◌>>=◌}
use dt4mob_platform.Prelude.Text.{String, ◌==◌}
use dt4mob_platform.Prelude.Int.{pos}
use dt4mob_platform.Json.{Json, null, obj, object}
use dt4mob_platform.Controller.State.{Config, State}
use dt4mob_platform.Controller.Http.{
  Net, Codec, Http, Unmarshalled, bad_json, nil_map, a_map, panic,
}
use dt4mob_platform.Controller.Loop.{EventType, passes, Event, Loop, max_retries, run}

pub record ServicePort : Type 0 where
  pub name : String
  pub port : ℕ

-- What the controller reads of a service; its selector is printed by FormatLabelSelector.
pub record Service : Type 0 where
  pub ports : List ServicePort
  pub selector : String

pub record Condition : Type 0 where
  pub type : String
  pub status : String

pub record Pod : Type 0 where
  pub conditions : List Condition

-- The Kubernetes API: the service of a namespace and a name, and the events of a watch of the pods
-- of a namespace and a selector, up to the end of the watch. `none` is an error. Watches of a secret
-- and of a config map begin, or fail.
pub record Cluster : Type 0 where
  pub watch_secret : String → String → Bool
  pub watch_config_map : String → String → Bool
  pub service : String → String → Option Service
  pub pods : String → String → Option (List (EventType × Pod))

abbrev pub is_ready : Pod → Bool
is_ready pod =
    any (λ (condition : Condition). condition.type == "Ready" && condition.status == "True")
      pod.conditions

-- The loop of WaitService: what it leaves of the events.
pub wait_ready : List (EventType × Pod) → List (EventType × Pod)
wait_ready [] = []
wait_ready ((type, pod) ∷ events) =
    let rest = wait_ready events in
    if passes type then (if is_ready pod then (type, pod) ∷ events else rest) else rest

module _ (cluster : Cluster) (config : Config) where
  -- WaitService: the service, and what it left of the watch.
  pub wait_service : String → Option (Service × List (EventType × Pod))
  unfolding wait_ready
  wait_service service_name = do
    svc ← cluster.service config.namespace service_name
    events ← cluster.pods config.namespace svc.selector
    some (svc, wait_ready events)

-- GetPortByName; `none` is its nil.
abbrev pub get_port_by_name : List ServicePort → String → Option ServicePort
get_port_by_name [] name = none
get_port_by_name (ele ∷ ports) name =
    let found = get_port_by_name ports name in if ele.name == name then some ele else found

module _ (decimal : ℕ → String) where
  -- `fmt.Sprintf("%s%s:%d", …, GetPortByName(svc, name).Port)`; a nil port panics.
  pub address : String → String → Service → String → Option String
  address scheme service_name svc name = do
    port ← get_port_by_name svc.ports name
    some (scheme ++ service_name ++ ":" ++ decimal port.port)

  -- The host of a service, unless the configuration has one.
  pub host_of : String → String → Service → Option String
  unfolding address
  host_of host service_name svc =
      if host == "" then address "http://" service_name svc "http" else some host

-- `level.UnmarshalText` and the defaults of the configuration; the file is the service account's.
pub settle_config : (String → Bool) → Option String → Config → Option Config
settle_config is_level namespace_file config =
    if is_level config.log_level
    then (do
      namespace ← (if config.namespace == "" then namespace_file else some config.namespace)
      some (record config {
        ca_secret_name =
            if config.ca_secret_name == "" then config.tls_secret_name else config.ca_secret_name;
        namespace = namespace;
      }))
    else none

-- The files that templates/templates.go embeds.
pub record Embedded : Type 0 where
  pub hono_connection : String
  pub export_connection : String
  pub system_service_policy : String

-- What stands before the loop uses of Go's library: `UnmarshalText` of a level, and `Parse` of a
-- template.
pub record Tools : Type 0 where
  pub is_level : String → Bool
  pub create_template : String → Option (String → String → Option String)

-- `json.Unmarshal` into a nil map.
abbrev pub policy_of : Unmarshalled → Option Json
policy_of bad_json = none
policy_of nil_map = some null
policy_of (a_map fields) = some (obj (object fields))

module _ (codec : Codec) (tools : Tools) (embedded : Embedded) where
  -- NewState; what the watches bring is at its zero value.
  pub new_state : String → Option State
  new_state kafka_host = do
    hono_conn_template ← tools.create_template embedded.hono_connection
    export_conn_template ← tools.create_template embedded.export_connection
    policy ← policy_of (codec.unmarshal embedded.system_service_policy)
    some (record {
      kafka_host = kafka_host;
      tenant = "";
      key_pair = none;
      ca_crt = "";
      trust_crt = "";
      devops_password = "";
      hono_connection_template = hono_conn_template;
      export_connection_template = export_conn_template;
      system_service_policy = policy;
    })

  -- Do the five calls of WatchSecret and WatchConfigMap return?
  abbrev pub watches : Cluster → Config → Bool
  watches cluster config =
      cluster.watch_secret config.namespace config.tls_secret_name
      && cluster.watch_secret config.namespace config.ca_secret_name
      && cluster.watch_secret config.namespace config.tenant_tls_trust_secret_name
      && cluster.watch_secret config.namespace config.devops_secret_name
      && cluster.watch_config_map config.namespace config.tenant_config_map_name

  abbrev pub watched : Bool → Config × State → Option (Config × State)
  watched b found = if b then some found else none

  -- `main` up to its loop. The configuration is what `env.Parse` makes of the environment, and the
  -- cluster what the client finds.
  pub start : Option Config → Option String → Option Cluster → Option (Config × State)
  unfolding settle_config
  start parsed namespace_file found = do
    read ← parsed
    config ← settle_config tools.is_level namespace_file read
    cluster ← found
    registry ← wait_service cluster config config.registry_service
    registry_host ← host_of codec.decimal config.registry_host config.registry_service registry.0
    ditto ← wait_service cluster config config.ditto_service
    ditto_host ← host_of codec.decimal config.ditto_host config.ditto_service ditto.0
    kafka ← wait_service cluster config config.kafka_service
    kafka_host ← address codec.decimal "" config.kafka_service kafka.0 "tcp-clients"
    state ← new_state kafka_host
    watched (watches cluster config)
        (record config { registry_host = registry_host; ditto_host = ditto_host }, state)

  -- The loop with which `main` starts.
  abbrev pub first_loop : State → Loop
  first_loop state = record { state = state; retries = max_retries; retry = false }

  abbrev main_from :
      {World : Type 0} → Net World → List Event → Option (Config × State) → Http World Loop
  main_from net events none = panic
  main_from net events (some (config, state)) = run net codec config (first_loop state) events

  -- `main`, over the events that its loop meets.
  pub main :
      {World : Type 0}
      → Net World
      → Option Config
      → Option String
      → Option Cluster
      → List Event
      → Http World Loop
  main net parsed namespace_file found events =
      main_from net events (start parsed namespace_file found)
