-- ===== src/Controller/Loop/Reload.antt =====
-- What a change in the cluster does to the event loop in main.go.
use dt4mob_platform.Prelude.{
  ℕ, ◌-◌, ◌≡◌, ◌≢◌, refl, ap, ◌∙◌, Bool, true, Option, none, some, ◌∷◌, leb, if◌then◌else◌,
}
use dt4mob_platform.Prelude.Int.{pos}
use dt4mob_platform.Controller.State.{Config, State}
use dt4mob_platform.Controller.Http.{Net, Codec, returned, panicked}
use dt4mob_platform.Controller.Http.Bind.{Runs}
use dt4mob_platform.Controller.Update.{update}
use dt4mob_platform.Controller.Loop.{
  Event, tls_secret, ca_secret, tenant_trust_secret, devops_secret, tenant_config_map, retry_tick,
  Loop, max_retries, load, after_load, step, run,
}
use dt4mob_platform.Controller.Loop.Retries.{ticks, armed, run-ticks_failing}

module _ {World : Type 0} (net : Net World) (codec : Codec) (config : Config) where
  step-after_load :
      (loop : Loop) (event : Event) (found : Option State) (w : World)
      → event ≢ retry_tick
      → load codec config loop.state event ≡ found
      → step net codec config loop event w ≡ after_load net codec config loop found w
  unfolding step
  step-after_load loop retry_tick found w h e = absurd (h refl)
  step-after_load loop (tls_secret _) found w h e = ap (λ s. after_load net codec config loop s w) e
  step-after_load loop (ca_secret _) found w h e = ap (λ s. after_load net codec config loop s w) e
  step-after_load loop (tenant_trust_secret _) found w h e =
      ap (λ s. after_load net codec config loop s w) e
  step-after_load loop (devops_secret _) found w h e =
      ap (λ s. after_load net codec config loop s w) e
  step-after_load loop (tenant_config_map _) found w h e =
      ap (λ s. after_load net codec config loop s w) e

  -- A version of a secret or config map that lacks its key, or whose key pair does not parse, leaves
  -- the loop as it is, with its pending retry, and nothing is sent.
  pub step-skips :
      (loop : Loop) (event : Event) (w : World)
      → event ≢ retry_tick
      → load codec config loop.state event ≡ none
      → step net codec config loop event w ≡ (returned loop, w)
  unfolding after_load
  step-skips loop event w h e = step-after_load loop event none w h e

  not_tick :
      (state : State) (event : Event) {found : State}
      → load codec config state event ≡ some found
      → event ≢ retry_tick
  unfolding load
  not_tick state retry_tick e = cc e
  not_tick state (tls_secret _) e = λ p. cc p
  not_tick state (ca_secret _) e = λ p. cc p
  not_tick state (tenant_trust_secret _) e = λ p. cc p
  not_tick state (devops_secret _) e = λ p. cc p
  not_tick state (tenant_config_map _) e = λ p. cc p

  -- A change that loads is followed by an update of the new state, with a fresh budget of retries
  -- whatever was left of the old one; a retry is pending exactly if that update asks for one.
  pub step-reloads :
      (loop : Loop) (event : Event) (state : State) (again : Bool) (w w' : World)
      → load codec config loop.state event ≡ some state
      → Runs (update net codec config state) w again w'
      → Runs
          (step net codec config loop event)
          w
          (record { state = state; retries = max_retries; retry = again })
          w'
  unfolding after_load
  step-reloads loop event state again w w' e ran =
      step-after_load loop event (some state) w (not_tick loop.state event e) e ∙ rw ran

  -- After a change that loads, with every update failing, the loop lives through four ticks of the
  -- timer and panics at the fifth.
  pub run_gives_up :
      (loop : Loop) (event : Event) (state : State) (n : ℕ) (w : World)
      → load codec config loop.state event ≡ some state
      → ((v : World) → (v' : World) × Runs (update net codec config state) v true v')
      → (run net codec config loop (event ∷ ticks n) w).0
        ≡ (if leb n 4 then returned (armed state (pos (5 - n))) else panicked)
  unfolding run
  run_gives_up loop event state n w e fails =
      rw (step-reloads loop event state true w (fails w).0 e (fails w).1)
        (run-ticks_failing net codec config state n 4 (fails w).0 fails)
