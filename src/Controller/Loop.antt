-- ===== src/Controller/Loop.antt =====
-- services/dt4mob-controller/main.go: the event loop of `main`, fed by the watches of
-- utils/utils.go (WatchSecret, WatchConfigMap) and by the retry timer.
pub mod Retries
pub mod Reload
pub mod Invariant
pub mod Latest
mod Tests
use dt4mob_platform.Prelude.{
  Bool, true, false, ◌&&◌, Option, none, some, List, [], ◌∷◌, if◌then◌else◌, ◌==◌, ◌-◌, ℕ, zero,
  suc, ◌^◌,
}
use dt4mob_platform.Prelude.Text.{String, lookup}
use dt4mob_platform.Prelude.Int.{ℤ, pos, negsuc}
use dt4mob_platform.Controller.State.{Config, KeyPair, State}
use dt4mob_platform.Controller.Http.{
  Net, Codec, Outcome, returned, panicked, Http, ◌>>=◌, pure, panic,
}
use dt4mob_platform.Controller.Update.{update}

-- The data of a secret or of a config map: a missing key is nil.
abbrev pub DataMap : Type 0
DataMap = List (String × String)

-- watchv1.EventType
pub data EventType : Type 0 where
  added modified deleted bookmark watch_error : EventType

-- The goroutines of WatchSecret and WatchConfigMap: what they pass on of the events of a watch.
abbrev pub passes : EventType → Bool
passes added = true
passes modified = true
passes _ = false

pub watch_data : List (EventType × DataMap) → List DataMap
watch_data [] = []
watch_data ((type, found) ∷ events) =
    let rest = watch_data events in if passes type then found ∷ rest else rest

-- A case of the `select`.
pub data Event : Type 0 where
  tls_secret ca_secret tenant_trust_secret devops_secret tenant_config_map : DataMap → Event
  retry_tick : Event

pub record Loop : Type 0 where
  pub state : State
  pub retries : ℤ
  pub retry : Bool

abbrev pub max_retries : ℤ
max_retries = pos 5

-- `retries--` on Go's int, of 64 bits, which wraps below its least value.
abbrev pub decrement : ℤ → ℤ
decrement (pos zero) = negsuc 0
decrement (pos (suc n)) = pos n
decrement (negsuc n) = if n == 2 ^ 63 - 1 then pos (2 ^ 63 - 1) else negsuc (suc n)

abbrev is_zero : ℤ → Bool
is_zero (pos n) = n == 0
is_zero (negsuc n) = false

abbrev with_text : (String → State) → Option String → Option State
with_text f none = none
with_text f (some text) = some (f text)

module _ (codec : Codec) (config : Config) where
  abbrev with_key_pair : State → Option KeyPair → Option State
  with_key_pair state none = none
  with_key_pair state (some pair) = some (record state { key_pair = some pair })

  abbrev with_tls : State → Option String → Option String → Option State
  with_tls state none crt = none
  with_tls state (some key) none = none
  with_tls state (some key) (some crt) = with_key_pair state (codec.x509_key_pair crt key)

  -- What a case of the `select` makes of the state; `none` is its `continue`, the tick's too.
  unfoldable pub load : State → Event → Option State
  load state (tls_secret found) =
      with_tls state (lookup config.tls_secret_key_selector found)
        (lookup config.tls_secret_crt_selector found)
  load state (ca_secret found) =
      with_text (λ crt. record state { ca_crt = crt }) (lookup config.ca_secret_selector found)
  load state (tenant_trust_secret found) =
      with_text (λ crt. record state { trust_crt = crt })
        (lookup config.tenant_tls_trust_secret_selector found)
  load state (devops_secret found) =
      with_text (λ password. record state { devops_password = password })
        (lookup config.devops_secret_selector found)
  load state (tenant_config_map found) =
      with_text (λ tenant. record state { tenant = tenant })
        (lookup config.tenant_config_map_selector found)
  load state retry_tick = none

module _ {World : Type 0} (net : Net World) (codec : Codec) (config : Config) where
  -- `if update(…) && retries == 0 { panic(…) }`, with the count already down by one.
  after_tick : Loop → Bool → Http World Loop
  after_tick loop again =
      if again && is_zero (decrement loop.retries)
      then panic
      else pure (record loop { retries = decrement loop.retries })

  -- The case of the timer; `retry` is left as it is.
  tick : Loop → Http World Loop
  unfolding after_tick
  tick loop =
      if loop.retry
      then (do again ← update net codec config loop.state; after_tick loop again)
      else pure loop

  -- What stands behind the `select`.
  after_load : Loop → Option State → Http World Loop
  after_load loop none = pure loop
  after_load loop (some state) = do
    again ← update net codec config state
    pure (record { state = state; retries = max_retries; retry = again })

  -- One round of the loop.
  pub step : Loop → Event → Http World Loop
  unfolding tick after_load
  step loop retry_tick = tick loop
  step loop event = after_load loop (load codec config loop.state event)

  pub run : Loop → List Event → Http World Loop
  run loop [] = pure loop
  run loop (event ∷ events) = do next ← step loop event; run next events
