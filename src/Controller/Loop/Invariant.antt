-- ===== src/Controller/Loop/Invariant.antt =====
-- What holds of the event loop in main.go after any sequence of events.
use dt4mob_platform.Prelude.{
  ℕ, zero, suc, ◌+◌, ◌-◌, ◌^◌, ◌≤◌, ◌<◌, ◌==◌, length, ◌≡◌, ◌⊎◌, inl, inr, refl, sym, Bool, true,
  false, ◌&&◌, Bool-cases, Option, none, some, List, [], ◌∷◌, arith,
}
use dt4mob_platform.Prelude.Int.{ℤ, pos, negsuc, neg_part, ◌≤ℤ◌}
use mathlib.Core.Path.{subst}
use dt4mob_platform.Controller.State.{Config, State}
use dt4mob_platform.Controller.State.Missing.{IsInitialized}
use dt4mob_platform.Controller.Http.{Net, Codec, returned}
use dt4mob_platform.Controller.Http.Bind.{Runs, >>=-Runs, pure-Runs, returned_value}
use dt4mob_platform.Controller.Update.{update}
use dt4mob_platform.Controller.Update.Retry.{update-skips, retry-IsInitialized}
use dt4mob_platform.Controller.Loop.{
  Event, tls_secret, ca_secret, tenant_trust_secret, devops_secret, tenant_config_map, retry_tick,
  Loop, max_retries, decrement, is_zero, load, after_tick, tick, after_load, step, run,
}

decrement-bounds :
    (r : ℤ) (low : ℕ)
    → r ≤ℤ max_retries
    → neg_part r ≤ low
    → low < 2 ^ 63
    → (decrement r ≤ℤ max_retries) × (neg_part (decrement r) ≤ suc low)
decrement-bounds (pos zero) low h k l = (omega arith, omega arith)
decrement-bounds (pos (suc n)) low h k l = (omega arith, omega arith)
decrement-bounds (negsuc n) low h k l =
    let inside : (n == 2 ^ 63 - 1) ≡ false = ground arith in rw inside (omega arith, omega arith)

-- What the loop keeps: the versions that arrived, in their order, and nothing else, are in its
-- state; it has at most its budget of retries, and its count has not gone below zero
-- more often than `low`; and it retries only with a state that has no part
-- missing.
pub record IsSound (state : State) (low : ℕ) (loop : Loop) : Type 0 where
  pub loaded : loop.state ≡ state
  pub budget : loop.retries ≤ℤ max_retries
  pub lowest : neg_part loop.retries ≤ low
  pub armed_initialized : (loop.retry ≡ false) ⊎ IsInitialized loop.state

abbrev pub settled : State → Option State → State
settled state none = state
settled state (some next) = next

module _ (codec : Codec) (config : Config) where
  -- The state after the events that load one.
  abbrev pub arrived : State → List Event → State
  arrived state [] = state
  arrived state (event ∷ events) = arrived (settled state (load codec config state event)) events

  -- No start of the events leaves a state with all its parts.
  abbrev pub IsWanting : State → List Event → Type 0
  IsWanting state [] = ¬ IsInitialized state
  IsWanting state (event ∷ events) =
      ¬ IsInitialized state × IsWanting (settled state (load codec config state event)) events

module _ {World : Type 0} (net : Net World) (codec : Codec) (config : Config) where
  after_tick-counts :
      (loop : Loop) (again : Bool) (w w' : World) {loop' : Loop}
      → Runs (after_tick net codec config loop again) w loop' w'
      → record loop { retries = decrement loop.retries } ≡ loop'
  unfolding after_tick
  after_tick-counts loop again w w' h =
      elim (Bool-cases (again && is_zero (decrement loop.retries))) [
        | inl e ↦ cc (returned_value (rw e at h)).0
        | inr e ↦ (pure-Runs _ (rw e at h)).0
      ]

  counted-IsSound :
      {state : State} {low : ℕ} {loop : Loop}
      → low < 2 ^ 63
      → IsSound state low loop
      → IsSound state (suc low) (record loop { retries = decrement loop.retries })
  counted-IsSound {low = low} {loop = loop} l s =
      let (under, above) = decrement-bounds loop.retries low s.budget s.lowest l in
      record {
        loaded = s.loaded;
        budget = under;
        lowest = above;
        armed_initialized = s.armed_initialized;
      }

  later-IsSound :
      {state : State} {low : ℕ} {loop : Loop}
      → IsSound state low loop
      → IsSound state (suc low) loop
  later-IsSound s = record {
    loaded = s.loaded;
    budget = s.budget;
    lowest = let h = s.lowest in omega (arith, h);
    armed_initialized = s.armed_initialized;
  }

  tick-IsSound :
      (current state : State) (low : ℕ) (retries : ℤ) (retry : Bool) (w w' : World) {loop' : Loop}
      → let loop : Loop = record { state = current; retries = retries; retry = retry } in
        low < 2 ^ 63
        → IsSound state low loop
        → Runs (tick net codec config loop) w loop' w'
        → IsSound state (suc low) loop'
  unfolding tick
  tick-IsSound current state low retries true w w' l s h =
      let (again, u, ran, h') = >>=-Runs (update net codec config current) _ h in
      subst (IsSound state (suc low))
        (after_tick-counts (record { state = current; retries = retries; retry = true }) again u w'
          h')
        (counted-IsSound l s)
  tick-IsSound current state low retries false w w' l s h =
      subst (IsSound state (suc low)) (pure-Runs _ h).0 (later-IsSound s)

  after_load-IsSound :
      (found : Option State) (low : ℕ) (loop loop' : Loop) (w w' : World)
      → IsSound loop.state low loop
      → Runs (after_load net codec config loop found) w loop' w'
      → IsSound (settled loop.state found) (suc low) loop'
  unfolding after_load
  after_load-IsSound none low loop loop' w w' s h =
      subst (IsSound loop.state (suc low)) (pure-Runs loop h).0 (later-IsSound s)
  after_load-IsSound (some next) low loop loop' w w' s h =
      let (again, u, ran, h') = >>=-Runs (update net codec config next) _ h in
      subst (IsSound next (suc low)) (pure-Runs _ h').0 (record {
        loaded = refl;
        budget = omega arith;
        lowest = omega arith;
        armed_initialized = retry-IsInitialized net codec config next w u again ran;
      })

  step-IsSound :
      (event : Event) (low : ℕ) (loop loop' : Loop) (w w' : World)
      → low < 2 ^ 63
      → IsSound loop.state low loop
      → Runs (step net codec config loop event) w loop' w'
      → IsSound (settled loop.state (load codec config loop.state event)) (suc low) loop'
  unfolding step load
  step-IsSound retry_tick low loop loop' w w' l s h =
      tick-IsSound loop.state loop.state low loop.retries loop.retry w w' l s h
  step-IsSound (tls_secret _) low loop loop' w w' l s h =
      after_load-IsSound _ low loop loop' w w' s h
  step-IsSound (ca_secret _) low loop loop' w w' l s h =
      after_load-IsSound _ low loop loop' w w' s h
  step-IsSound (tenant_trust_secret _) low loop loop' w w' l s h =
      after_load-IsSound _ low loop loop' w w' s h
  step-IsSound (devops_secret _) low loop loop' w w' l s h =
      after_load-IsSound _ low loop loop' w w' s h
  step-IsSound (tenant_config_map _) low loop loop' w w' l s h =
      after_load-IsSound _ low loop loop' w w' s h

  next-IsSound :
      (event : Event) (state : State) (low : ℕ) (loop loop' : Loop) (w w' : World)
      → low < 2 ^ 63
      → IsSound state low loop
      → Runs (step net codec config loop event) w loop' w'
      → IsSound (settled state (load codec config state event)) (suc low) loop'
  next-IsSound event state low loop loop' w w' l s h =
      subst (λ now. IsSound (settled now (load codec config now event)) (suc low) loop') s.loaded
        (step-IsSound event low loop loop' w w' l
          (subst (λ now. IsSound now low loop) (sym s.loaded) s) h)

  -- From a loop that is sound for its state, whatever the events and the replies, a loop that is
  -- still running has in its state each version of a secret or config map that loaded, in the order
  -- of arrival, and no other; it has at most five retries left; and it has a retry pending only if
  -- no part of its state is missing. The count does not wrap in as many events.
  pub run-IsSound :
      (events : List Event) (state : State) (low : ℕ) (loop loop' : Loop) (w w' : World)
      → low + length events ≤ 2 ^ 63
      → IsSound state low loop
      → Runs (run net codec config loop events) w loop' w'
      → IsSound (arrived codec config state events) (low + length events) loop'
  unfolding run
  run-IsSound [] state low loop loop' w w' l s h =
      let same : low ≡ low + length {A = Event} [] = omega arith in
      subst (λ n. IsSound state n loop') same (subst (IsSound state low) (pure-Runs loop h).0 s)
  run-IsSound (event ∷ events) state low loop loop' w w' l s h =
      let (next, u, ran, h') = >>=-Runs (step net codec config loop event) _ h in
      let same : suc low + length events ≡ low + suc (length events) = omega arith in
      subst (λ n. IsSound (arrived codec config state (event ∷ events)) n loop') same
        (run-IsSound events _ (suc low) next loop' u w' (omega arith)
          (next-IsSound event state low loop next w u (omega arith) s ran) h')

  wanting_now :
      (events : List Event) (state : State)
      → IsWanting codec config state events
      → ¬ IsInitialized state
  wanting_now [] state h = h
  wanting_now (event ∷ events) state (h, later) = h

  abbrev quiet : State → Loop
  quiet state = record { state = state; retries = max_retries; retry = false }

  after_load-waits :
      (state : State) (found : Option State) (w : World)
      → ¬ IsInitialized (settled state found)
      → after_load net codec config (quiet state) found w
        ≡ (returned (quiet (settled state found)), w)
  unfolding after_load
  after_load-waits state none w h = refl
  after_load-waits state (some next) w h = rw (update-skips net codec config next w h)

  step-waits :
      (event : Event) (state : State) (w : World)
      → let next : State = settled state (load codec config state event) in
        ¬ IsInitialized next
        → step net codec config (quiet state) event w ≡ (returned (quiet next), w)
  unfolding step tick load
  step-waits retry_tick state w h = refl
  step-waits (tls_secret _) state w h = after_load-waits state _ w h
  step-waits (ca_secret _) state w h = after_load-waits state _ w h
  step-waits (tenant_trust_secret _) state w h = after_load-waits state _ w h
  step-waits (devops_secret _) state w h = after_load-waits state _ w h
  step-waits (tenant_config_map _) state w h = after_load-waits state _ w h

  -- While no event has completed the state, nothing is sent, no retry is pending and the loop goes
  -- on, with what has arrived.
  pub run-waits :
      (events : List Event) (state : State) (w : World)
      → IsWanting codec config state events
      → run net codec config (quiet state) events w
        ≡ (returned (quiet (arrived codec config state events)), w)
  unfolding run
  run-waits [] state w h = refl
  run-waits (event ∷ events) state w (_, later) =
      rw (step-waits event state w (wanting_now events _ later)) (run-waits events _ w later)
