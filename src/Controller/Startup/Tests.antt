-- ===== src/Controller/Startup/Tests.antt =====
-- The start of the controller on a sample cluster.
use dt4mob_platform.Prelude.{◌≡◌, refl, arith, true, none, some, List, [], ◌∷◌}
use dt4mob_platform.Prelude.Text.{String}
use dt4mob_platform.Json.{null, obj, field, end}
use dt4mob_platform.Controller.State.{Config, State}
use dt4mob_platform.Controller.State.Missing.{IsInitialized}
use dt4mob_platform.Controller.Sample.{config, codec, fresh}
use dt4mob_platform.Controller.Http.{returned}
use dt4mob_platform.Controller.Http.Bind.{Runs}
use dt4mob_platform.Controller.Loop.{
  added, modified, deleted, Event, tls_secret, ca_secret, tenant_config_map, retry_tick, Loop, load,
}
use dt4mob_platform.Controller.Loop.Invariant.{IsSound, IsWanting, arrived}
use dt4mob_platform.Controller.Loop.Latest.{IsLatest}
use dt4mob_platform.Controller.Startup.{
  Service, Pod, Cluster, wait_ready, wait_service, address, host_of, settle_config, Embedded, Tools,
  new_state, start, first_loop, main,
}
use dt4mob_platform.Controller.Startup.Settled.{IsSettled, main-IsSound, main_waits}

abbrev pod : String → Pod
pod status = record { conditions = record { type = "Ready"; status = status } ∷ [] }

abbrev service : Service
service = record {
  ports = record { name = "http"; port = 8080 } ∷ record { name = "tcp-clients"; port = 9093 } ∷ [];
  selector = "app=dt4mob";
}

abbrev cluster : Cluster
cluster = record {
  watch_secret = λ namespace name. true;
  watch_config_map = λ namespace name. true;
  service = λ namespace name. some service;
  pods = λ namespace selector. some (
      (deleted, pod "True")
      ∷ (added, pod "False")
      ∷ (modified, pod "True")
      ∷ (added, pod "True")
      ∷ []);
}

abbrev environment : Config
environment = record config { namespace = ""; registry_host = "" }

abbrev tools : Tools
tools = record { is_level = λ level. true; create_template = λ raw. some (λ tenant host. some raw) }

abbrev embedded : Embedded
embedded = record {
  hono_connection = "hono";
  export_connection = "export";
  system_service_policy = "{}";
}

abbrev arrivals : List Event
arrivals =
    tenant_config_map (("tenant", "t") ∷ [])
    ∷ retry_tick
    ∷ ca_secret (("other", "x") ∷ [])
    ∷ tls_secret (("tls.key", "k") ∷ ("tls.crt", "c") ∷ [])
    ∷ []

abbrev at_start : State
at_start = record {
  kafka_host = "kafka:10";
  tenant = "";
  key_pair = none;
  ca_crt = "";
  trust_crt = "";
  devops_password = "";
  hono_connection_template = λ tenant host. some "hono";
  export_connection_template = λ tenant host. some "export";
  system_service_policy = obj (field "uri" null end);
}

abbrev settled_config : Config
settled_config = record config { registry_host = "http://registry:10" }

started :
    start codec tools embedded (some environment) (some "dt4mob") (some cluster)
    ≡ some (settled_config, at_start)
unfolding start settle_config host_of address wait_service wait_ready new_state
started = refl

wanting : IsWanting codec settled_config at_start arrivals
unfolding load
wanting =
    let no_ca : ¬ IsInitialized (record at_start { tenant = "t" }) = λ i. i.has_ca_crt refl in
    (λ i. i.has_tenant refl, (no_ca, (no_ca, (no_ca, λ i. i.has_ca_crt refl))))

abbrev after_arrivals : Loop
after_arrivals = first_loop codec tools embedded (record at_start {
  tenant = "t";
  key_pair = some (record { certificate = "c" ∷ []; private_key = "k" });
})

main_waits_example :
    main codec tools embedded fresh (some environment) (some "dt4mob") (some cluster) arrivals 0
    ≡ (returned after_arrivals, 0)
unfolding load
main_waits_example =
    main_waits codec tools embedded fresh (some environment) (some "dt4mob") (some cluster) arrivals
      settled_config at_start 0 started wanting

waited :
    Runs
      (main codec tools embedded fresh (some environment) (some "dt4mob") (some cluster) arrivals)
      0
      after_arrivals
      0
unfolding load
waited =
    main_waits codec tools embedded fresh (some environment) (some "dt4mob") (some cluster) arrivals
      settled_config at_start 0 started wanting

main-IsSound_example :
    (config : Config) × (state : State) × IsSettled codec tools embedded
      (some "dt4mob")
      environment
      config
      cluster
      state
    × IsLatest codec config state arrivals after_arrivals.state
    × IsSound (arrived codec config state arrivals) 4 after_arrivals
main-IsSound_example =
    main-IsSound codec tools embedded fresh environment (some "dt4mob") cluster arrivals 0 0
      after_arrivals (omega arith) waited
