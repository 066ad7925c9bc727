-- ===== src/Controller/Update/Retry.antt =====
-- What `update` of main.go does as a whole: its parts, its order, and the retry that it asks for.
use dt4mob_platform.Prelude.{◌≡◌, ◌⊎◌, inl, inr, sym, Bool, true, false, not, ◌||◌, Bool-cases}
use dt4mob_platform.Prelude.Text.{String, ◌==◌ as str_eq, eq_iff}
use dt4mob_platform.Controller.State.{
  Config, State, missing_initialization, ditto_hono_connection_url, ditto_export_connection_url,
}
use dt4mob_platform.Controller.State.Missing.{IsInitialized, missing_initialization-eq-empty_iff}
use dt4mob_platform.Controller.Http.{Net, Codec}
use dt4mob_platform.Controller.Http.Bind.{Runs, >>=-Runs, pure-Runs}
use dt4mob_platform.Controller.Update.{update, update_hono_tenant, sync_connection, update_policy}

empty_test : (s : String) → s ≡ "" → str_eq s "" ≡ true
empty_test s e = (eq_iff s "").1 e

module _ {World : Type 0} (net : Net World) (codec : Codec) (config : Config) (state : State) where
  -- The four parts of an update that ran to its end, and the retry that they add up to.
  pub record UpdateParts (w : World) (retry : Bool) (w' : World) : Type 0 where
    pub tenant_failed : Bool
    pub hono : Bool
    pub exported : Bool
    pub policy : Bool
    pub after_tenant : World
    pub after_hono : World
    pub after_export : World
    pub tenant_ran : Runs (update_hono_tenant net codec config state) w tenant_failed after_tenant
    pub hono_ran :
        Runs
          (sync_connection net codec config state
            (ditto_hono_connection_url state config)
            state.hono_connection_template)
          after_tenant
          hono
          after_hono
    pub export_ran :
        Runs
          (sync_connection net codec config state
            (ditto_export_connection_url state config)
            state.export_connection_template)
          after_hono
          exported
          after_export
    pub policy_ran : Runs (update_policy net codec config state) after_export policy w'
    pub retry_eq : retry ≡ (tenant_failed || not hono || not exported || not policy)

  -- With all five parts of the state there, each service is updated whatever became of the ones
  -- before it, in the order tenant, Hono connection, export connection, policy; and a retry is
  -- asked for exactly if one of them failed.
  pub update-UpdateParts :
      (w w' : World) (retry : Bool)
      → IsInitialized state
      → Runs (update net codec config state) w retry w'
      → UpdateParts w retry w'
  unfolding update
  update-UpdateParts w w' retry init h =
      let present = empty_test _ ((missing_initialization-eq-empty_iff state).1 init) in
      let (tenant_failed, u₁, tenant_ran, h₁) =
        >>=-Runs (update_hono_tenant net codec config state) _ (rw present at h) in
      let (hono, u₂, hono_ran, h₂) =
        >>=-Runs
          (sync_connection net codec config state (ditto_hono_connection_url state config)
            state.hono_connection_template)
          _ h₁ in
      let (exported, u₃, export_ran, h₃) =
        >>=-Runs
          (sync_connection net codec config state (ditto_export_connection_url state config)
            state.export_connection_template)
          _ h₂ in
      let (policy, u₄, policy_ran, h₄) = >>=-Runs (update_policy net codec config state) _ h₃ in
      let (sum, same) = pure-Runs _ h₄ in
      record {
        tenant_failed = tenant_failed;
        hono = hono;
        exported = exported;
        policy = policy;
        after_tenant = u₁;
        after_hono = u₂;
        after_export = u₃;
        tenant_ran = tenant_ran;
        hono_ran = hono_ran;
        export_ran = export_ran;
        policy_ran = rw same at policy_ran;
        retry_eq = sym sum;
      }

  -- With a part missing, nothing is sent and no retry is asked for.
  pub update-skips :
      (w : World) → ¬ IsInitialized state → Runs (update net codec config state) w false w
  unfolding update
  update-skips w h = elim (Bool-cases (str_eq (missing_initialization state) "")) [
    | inl e ↦ absurd (h ((missing_initialization-eq-empty_iff state).0 ((eq_iff _ _).0 e)))
    | inr e ↦ rw e
  ]

  -- A retry is asked for only with all parts there.
  pub retry-IsInitialized :
      (w w' : World) (retry : Bool)
      → Runs (update net codec config state) w retry w'
      → (retry ≡ false) ⊎ IsInitialized state
  unfolding update
  retry-IsInitialized w w' retry h = elim (Bool-cases (str_eq (missing_initialization state) "")) [
    | inl e ↦ inr ((missing_initialization-eq-empty_iff state).0 ((eq_iff _ _).0 e))
    | inr e ↦ inl (sym (pure-Runs false (rw e at h)).0)
  ]
