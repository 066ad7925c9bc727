-- ===== src/Controller/Loop/Tests.antt =====
-- The event loop on the sample.
use dt4mob_platform.Prelude.{
  ℕ, ◌+◌, ◌-◌, ◌≡◌, refl, true, false, some, [], ◌∷◌, arith, leb, if◌then◌else◌,
}
use dt4mob_platform.Prelude.Int.{pos, sub_ℕ}
use dt4mob_platform.Controller.Sample.{config, started, state, codec, fresh, unreachable}
use dt4mob_platform.Controller.State.{missing_initialization}
use dt4mob_platform.Controller.Http.{returned, panicked}
use dt4mob_platform.Controller.Http.Bind.{Runs}
use dt4mob_platform.Controller.Update.{
  update, update_hono_tenant, sync_connection, get_connection, update_connection, update_policy,
}
use dt4mob_platform.Controller.Loop.{Event, tenant_config_map, Loop, max_retries, load, run}
use dt4mob_platform.Controller.Loop.Retries.{
  ticks, armed, sent, run-ticks_succeeding, run-ticks_below,
}
use dt4mob_platform.Controller.Loop.Reload.{run_gives_up}

abbrev idle : Loop
idle = record { state = started; retries = max_retries; retry = false }

abbrev tenant_event : Event
tenant_event = tenant_config_map (("tenant", "t") ∷ [])

loads : load codec config started tenant_event ≡ some state
unfolding load
loads = refl

fails_at : (v : ℕ) → Runs (update unreachable codec config state) v true v
unfolding update missing_initialization update_hono_tenant sync_connection get_connection
    update_connection update_policy
fails_at v = refl

always_fails : (v : ℕ) → (v' : ℕ) × Runs (update unreachable codec config state) v true v'
always_fails v = (v, fails_at v)

always_succeeds :
    (v : ℕ) → Runs (update fresh codec config state) v false (v + 1 + 1 + 1 + 1 + 1 + 1)
unfolding update missing_initialization update_hono_tenant sync_connection get_connection
    update_connection update_policy
always_succeeds v = refl

run_gives_up_example :
    (run unreachable codec config idle (tenant_event ∷ ticks 5) 0).0
    ≡ (if leb 5 4 then returned (armed state (pos (5 - 5))) else panicked)
run_gives_up_example =
    run_gives_up unreachable codec config idle tenant_event state 5 0 loads always_fails

run-ticks_succeeding_example :
    Runs
      (run fresh codec config (armed state (sub_ℕ 5 0)) (ticks 7))
      0
      (armed state (sub_ℕ 5 (0 + 7)))
      (sent fresh codec config state (λ v. v + 1 + 1 + 1 + 1 + 1 + 1) 7 0)
run-ticks_succeeding_example =
    run-ticks_succeeding fresh codec config state (λ v. v + 1 + 1 + 1 + 1 + 1 + 1) 7 5 0 0
      (omega arith) always_succeeds

run-ticks_below_example :
    Runs
      (run unreachable codec config (armed state (sub_ℕ 0 0)) (ticks 9))
      0
      (armed state (sub_ℕ 0 (0 + 9)))
      (sent unreachable codec config state (λ v. v) 9 0)
run-ticks_below_example =
    run-ticks_below unreachable codec config state (λ v. v) 9 0 0 (omega arith)
      (λ v. (true, fails_at v))
