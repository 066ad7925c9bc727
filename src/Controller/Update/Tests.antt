-- ===== src/Controller/Update/Tests.antt =====
-- One update on the sample.
use dt4mob_platform.Prelude.{◌≡◌, refl, true, false, arith}
use dt4mob_platform.Prelude.Text.{String, eq_iff}
use dt4mob_platform.Controller.Sample.{config, started, state, codec, fresh}
use dt4mob_platform.Controller.State.{missing_initialization}
use dt4mob_platform.Controller.State.Missing.{IsInitialized}
use dt4mob_platform.Controller.Http.Bind.{Runs, Returns, Anything}
use dt4mob_platform.Controller.Update.{
  update, update_hono_tenant, sync_connection, get_connection, update_connection, update_policy,
}
use dt4mob_platform.Controller.Update.Connection.{IsSynced, sync_connection-true}
use dt4mob_platform.Controller.Update.Delivered.{IsDelivered, update-IsDelivered}
use dt4mob_platform.Controller.Update.Panics.{IsUsable, update-Returns}

initialized : IsInitialized state
initialized = record {
  has_tenant = λ e. ground (arith, eq_iff "t" "");
  has_key_pair = λ e. cc e;
  has_ca_crt = λ e. ground (arith, eq_iff "ca" "");
  has_trust_crt = λ e. ground (arith, eq_iff "trust" "");
  has_devops_password = λ e. ground (arith, eq_iff "secret" "");
}

no_tenant : missing_initialization started ≡ "Tenant"
unfolding missing_initialization
no_tenant = refl

abbrev hono_url : String
hono_url = "http://ditto:8080/api/2/connections/hono-kafka-connection-for-t"

synced :
    Runs (sync_connection fresh codec config state hono_url state.hono_connection_template) 0 true 2
unfolding sync_connection get_connection update_connection
synced = refl

sync_connection-true_example :
    IsSynced fresh codec config state hono_url state.hono_connection_template 0 2
sync_connection-true_example =
    sync_connection-true fresh codec config state hono_url state.hono_connection_template synced

updated : Runs (update fresh codec config state) 0 false 6
unfolding update missing_initialization update_hono_tenant sync_connection get_connection
    update_connection update_policy
updated = refl

update-IsDelivered_example : IsDelivered fresh codec config state 0 6
update-IsDelivered_example = update-IsDelivered fresh codec config state initialized updated

usable : IsUsable codec config state
usable = record {
  tenant_url = refl;
  hono_url = refl;
  export_url = refl;
  policy_url = refl;
  trust_pem = λ e. cc e;
  key_pair = λ e. cc e;
  hono_template = λ e. cc e;
  export_template = λ e. cc e;
  hono_not_null = λ text made e. cc e;
  export_not_null = λ text made e. cc e;
}

update-Returns_example : Returns Anything (update fresh codec config state)
update-Returns_example =
    update-Returns fresh codec config state usable (λ request w res text here body e. cc e)
