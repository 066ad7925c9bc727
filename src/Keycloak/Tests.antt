-- ===== src/Keycloak/Tests.antt =====
-- The script, run on a cluster in memory.
use dt4mob_platform.Prelude.{◌≡◌, refl, true, false, some, [], ◌∷◌}
use dt4mob_platform.Keycloak.{
  Environment, ensure_realm, ensure_client, ensure_role, ensure_roles, ensure_user, ensure_secret,
  ensure_account, ensure_accounts, setup,
}
use dt4mob_platform.Keycloak.Keeping.{IsKept}
use dt4mob_platform.Keycloak.Provision.{IsProvisioned, setup-IsProvisioned}
use dt4mob_platform.Keycloak.Sample.{Cluster, view, tools, tools-IsAdditive, tools-IsEffective}

abbrev env : Environment
env = record {
  system_roles = ("admin", "Administrators") ∷ [];
  system_service_role_name = "system-service";
  system_accounts = "ditto" ∷ "gc" ∷ [];
  accounts_prefix = "service";
  secrets_prefix = "dt4mob";
}

-- One account is there already, with its secret.
abbrev before : Cluster
before = record {
  has_client = false;
  roles = [];
  users = "service-gc" ∷ [];
  granted = [];
  secrets = ("dt4mob-gc-credentials", ("service-gc", "old")) ∷ [];
}

abbrev after : Cluster
after = record {
  has_client = true;
  roles = "system-service" ∷ "admin" ∷ [];
  users = "service-ditto" ∷ "service-gc" ∷ [];
  granted = "service-gc" ∷ "service-ditto" ∷ [];
  secrets =
      ("dt4mob-ditto-credentials", ("service-ditto", "s3cret"))
      ∷ ("dt4mob-gc-credentials", ("service-gc", "old"))
      ∷ [];
}

run : setup tools env before ≡ (some tt, after)
unfolding setup ensure_realm ensure_client ensure_role ensure_roles ensure_user ensure_secret
    ensure_account ensure_accounts
run = refl

setup-IsProvisioned_example : IsProvisioned view env after × IsKept view before after
setup-IsProvisioned_example =
    setup-IsProvisioned view tools tools-IsAdditive tools-IsEffective env before after run
