-- ===== src/Controller/Startup/Services.antt =====
-- The services that main.go waits for, and their addresses: WaitService and GetPortByName of
-- utils/utils.go.
use Prim.Native.String.{◌++◌ as ◌<>◌}
use dt4mob_platform.Prelude.{
  ℕ, ◌≡◌, ◌≢◌, ◌⊎◌, inl, inr, refl, sym, ap, Bool, true, false, ◌&&◌, Bool-cases, some, List, [],
  ◌∷◌, ◌++◌, All,
}
use dt4mob_platform.Prelude.Text.{String, ◌==◌, eq_iff}
use dt4mob_platform.Prelude.Chain.{>>=-eq-some}
use dt4mob_platform.Controller.State.{Config}
use dt4mob_platform.Controller.Loop.{EventType, passes}
use dt4mob_platform.Controller.Startup.{
  ServicePort, Service, Pod, Cluster, is_ready, wait_ready, wait_service, get_port_by_name, address,
  host_of,
}

-- The event tells of a ready pod.
abbrev pub tells : EventType × Pod → Bool
tells event = passes event.0 && is_ready event.1

-- The waiting passed over events that told of no ready pod, up to one that did or to the end of the
-- watch.
pub record IsAwaited (events rest : List (EventType × Pod)) : Type 0 where
  pub passed : List (EventType × Pod)
  pub split : events ≡ passed ++ rest
  pub none_ready : All (λ event. tells event ≡ false) passed
  pub ended :
      (rest ≡ [])
      ⊎ ((event : EventType × Pod) × (later : List (EventType × Pod)) × (rest ≡ event ∷ later)
          × (tells event ≡ true))

pass-IsAwaited :
    (event : EventType × Pod) (events rest : List (EventType × Pod))
    → tells event ≡ false
    → IsAwaited events rest
    → IsAwaited (event ∷ events) rest
pass-IsAwaited event events rest quiet a = record {
  passed = event ∷ a.passed;
  split = ap (λ more. event ∷ more) a.split;
  none_ready = (quiet, a.none_ready);
  ended = a.ended;
}

pub wait_ready-IsAwaited : (events : List (EventType × Pod)) → IsAwaited events (wait_ready events)
unfolding wait_ready
wait_ready-IsAwaited [] = record { passed = []; split = refl; none_ready = tt; ended = inl refl }
wait_ready-IsAwaited ((type, pod) ∷ events) =
    let later = wait_ready-IsAwaited events in
    elim (Bool-cases (passes type)) [
      | inl e ↦ elim (Bool-cases (is_ready pod)) [
        | inl r ↦
            rw (e, r)
              (record {
                passed = [];
                split = refl;
                none_ready = tt;
                ended = inr ((type, pod), events, refl, rw (e, r) refl);
              })
        | inr r ↦
            rw (e, r) (pass-IsAwaited (type, pod) events (wait_ready events) (rw (e, r) refl) later)
      ]
      | inr e ↦ rw e (pass-IsAwaited (type, pod) events (wait_ready events) (rw e refl) later)
    ]

-- The service is there, and its pods have been awaited: what `wait_service` left of their events is
-- what comes after those that it had to pass over.
pub record IsServed (cluster : Cluster) (config : Config) (service_name : String) (svc : Service)
    : Type 0 where
  pub known : cluster.service config.namespace service_name ≡ some svc
  pub events : List (EventType × Pod)
  pub rest : List (EventType × Pod)
  pub watched : cluster.pods config.namespace svc.selector ≡ some events
  pub waited : wait_service cluster config service_name ≡ some (svc, rest)
  pub awaited : IsAwaited events rest

pub wait_service-IsServed :
    (cluster : Cluster) (config : Config) (service_name : String)
    (found : Service × List (EventType × Pod))
    → wait_service cluster config service_name ≡ some found
    → IsServed cluster config service_name found.0
unfolding wait_service
wait_service-IsServed cluster config service_name found h =
    let (svc, known, h₁) = >>=-eq-some (cluster.service config.namespace service_name) _ h in
    let (events, watched, h₂) = >>=-eq-some (cluster.pods config.namespace svc.selector) _ h₁ in
    let pair : ◌≡◌ {A = Service × List (EventType × Pod)} (svc, wait_ready events) found = cc h₂ in
    let same : svc ≡ found.0 = ap (λ p. p.0) pair in
    rw (sym same) (record {
      known = known;
      events = events;
      rest = wait_ready events;
      watched = watched;
      waited = rw (known, watched) refl;
      awaited = wait_ready-IsAwaited events;
    })

module _ (decimal : ℕ → String) where
  -- The address of the first port of a name.
  abbrev pub IsAddress : String → String → Service → String → String → Type 0
  IsAddress scheme service_name svc name host =
      (port : ServicePort) × (get_port_by_name svc.ports name ≡ some port)
      × (host ≡ scheme <> service_name <> ":" <> decimal port.port)

  pub address-IsAddress :
      (scheme service_name : String) (svc : Service) (name host : String)
      → address decimal scheme service_name svc name ≡ some host
      → IsAddress scheme service_name svc name host
  unfolding address
  address-IsAddress scheme service_name svc name host h =
      let (port, found, h₁) = >>=-eq-some (get_port_by_name svc.ports name) _ h in
      (port, found, sym (cc h₁))

  -- The host that is configured, or else the address of the service's port for HTTP.
  abbrev pub IsHost : String → String → Service → String → Type 0
  IsHost configured service_name svc host =
      ((configured ≢ "") × (host ≡ configured))
      ⊎ ((configured ≡ "") × IsAddress "http://" service_name svc "http" host)

  pub host_of-IsHost :
      (configured service_name : String) (svc : Service) (host : String)
      → host_of decimal configured service_name svc ≡ some host
      → IsHost configured service_name svc host
  unfolding host_of
  host_of-IsHost configured service_name svc host h = elim (Bool-cases (configured == "")) [
    | inl e ↦ inr (
      (eq_iff configured "").0 e,
      address-IsAddress "http://" service_name svc "http" host (rw e at h),
    )
    | inr e ↦ inl (λ same. cc (e, (eq_iff configured "").1 same), sym (cc (rw e at h)))
  ]
