-- ===== src/Keycloak/Provision.antt =====
-- What is there in Keycloak and Kubernetes once images/keycloak-config/setup.sh has succeeded.
use dt4mob_platform.Prelude.{◌≡◌, true, some, List, [], ◌∷◌}
use dt4mob_platform.Prelude.Text.{String}
use dt4mob_platform.Keycloak.{
  ◌>>=◌, ◌>>◌, Tools, Environment, account_name, secret_name, ensure_realm, ensure_client,
  ensure_role, ensure_roles, ensure_user, ensure_account, ensure_accounts, setup,
}
use dt4mob_platform.Keycloak.Keeping.{
  View, IsKept, IsAdditive, IsKept-trans, ensure_roles-Keeps, ensure_role-Keeps,
  ensure_secret-Keeps, ensure_accounts-Keeps, setup-Keeps,
}
use dt4mob_platform.Keycloak.Success.{>>=-some}
use dt4mob_platform.Keycloak.Effects.{
  IsEffective, run-IsKept, ensure_client-some, ensure_role-some, ensure_user-some,
  ensure_secret-some,
}

module _ {World : Type 0} (view : View World) where
  open view use {client, role, user, has_role, secret}

  abbrev HasRoles : World → String → List (String × String) → Type 0
  HasRoles v cid [] = Unit {0}
  HasRoles v cid ((name, text) ∷ roles) =
      ((id : String) × (role v cid name ≡ some id)) × HasRoles v cid roles

  -- The account of a name: a user with the service role, and a secret.
  abbrev pub HasAccount : World → Environment → String → String → String → Type 0
  HasAccount v env cid r name =
      (id : String) × (content : String × String) × (user v (account_name env name) ≡ some id)
      × (has_role v id cid r ≡ true)
      × (secret v (secret_name env name) ≡ some content)

  abbrev HasAccounts : World → Environment → String → String → List String → Type 0
  HasAccounts v env cid r [] = Unit {0}
  HasAccounts v env cid r (name ∷ names) =
      HasAccount v env cid r name × HasAccounts v env cid r names

  -- The client is there with its roles, also the service role, and so is every account.
  abbrev pub IsProvisioned : Environment → World → Type 0
  IsProvisioned env v =
      (cid : String) × (r : String) × (client v ≡ some cid)
      × HasRoles v cid env.system_roles
      × (role v cid env.system_service_role_name ≡ some r)
      × HasAccounts v env cid r env.system_accounts

  HasRoles-kept :
      {w v : World} (cid : String) (roles : List (String × String))
      → IsKept view w v
      → HasRoles w cid roles
      → HasRoles v cid roles
  HasRoles-kept cid [] k h = tt
  HasRoles-kept cid ((name, text) ∷ roles) k ((id, h), rest) =
      ((id, k.role_kept cid name id h), HasRoles-kept cid roles k rest)

  HasAccount-kept :
      {w v : World} (env : Environment) (cid r name : String)
      → IsKept view w v
      → HasAccount w env cid r name
      → HasAccount v env cid r name
  HasAccount-kept env cid r name k (id, content, is_user, granted, held) = (
    id,
    content,
    k.user_kept _ id is_user,
    k.grant_kept id cid r granted,
    k.secret_kept _ content held,
  )

  module _ (tools : Tools World) (additive : IsAdditive view tools)
      (effective : IsEffective view tools) where
    ensure_roles-some :
        (w v : World) (cid : String) (roles : List (String × String))
        → ensure_roles tools cid roles w ≡ (some tt, v)
        → HasRoles v cid roles
    unfolding ensure_roles
    ensure_roles-some w v cid [] h = tt
    ensure_roles-some w v cid ((name, text) ∷ roles) h =
        let (id, u, e, rest) = >>=-some (ensure_role tools cid name text) _ h in
        let kept = run-IsKept view u v (ensure_roles-Keeps view tools additive cid roles) rest in
        (
          (
            id,
            kept.role_kept cid name id
                (ensure_role-some view tools additive effective w u cid name text id e),
          ),
          ensure_roles-some u v cid roles rest,
        )

    ensure_account-some :
        (w v : World) (env : Environment) (cid r name : String)
        → ensure_account tools env cid r name w ≡ (some tt, v)
        → HasAccount v env cid r name
    unfolding ensure_account
    ensure_account-some w v env cid r name h =
        let (id, u, is_user, rest) = >>=-some (ensure_user tools (account_name env name)) _ h in
        let (_, x, granted, last) = >>=-some (tools.add_role id cid r) _ rest in
        let before = run-IsKept view u x (additive.add_role id cid r) granted in
        let after =
          run-IsKept view x v
            (ensure_secret-Keeps view tools additive (secret_name env name) (account_name env name)
              id)
            last in
        let (content, held) =
          ensure_secret-some view tools additive effective x v (secret_name env name)
            (account_name env name) id last in
        (
          id,
          content,
          after.user_kept _ id (
              before.user_kept _ id
                (ensure_user-some view tools additive effective w u _ id is_user)),
          after.grant_kept id cid r (effective.add_role u x id cid r granted),
          held,
        )

    ensure_accounts-some :
        (w v : World) (env : Environment) (cid r : String) (names : List String)
        → ensure_accounts tools env cid r names w ≡ (some tt, v)
        → HasAccounts v env cid r names
    unfolding ensure_accounts
    ensure_accounts-some w v env cid r [] h = tt
    ensure_accounts-some w v env cid r (name ∷ names) h =
        let (_, u, e, rest) = >>=-some (ensure_account tools env cid r name) _ h in
        let kept =
          run-IsKept view u v (ensure_accounts-Keeps view tools additive env cid r names) rest in
        (
          HasAccount-kept env cid r name kept (ensure_account-some w u env cid r name e),
          ensure_accounts-some u v env cid r names rest,
        )

    ensured :
        (w v : World) (env : Environment)
        → (do
          cid ← ensure_client tools
          ensure_roles tools cid env.system_roles
          r ← ensure_role tools cid env.system_service_role_name "Systems services role"
          ensure_accounts tools env cid r env.system_accounts)
            w
          ≡ (some tt, v)
        → IsProvisioned env v
    ensured w v env h =
        let (cid, u, e, rest) = >>=-some (ensure_client tools) _ h in
        let (_, x, f, then_) = >>=-some (ensure_roles tools cid env.system_roles) _ rest in
        let (r, y, g, last) =
          >>=-some (ensure_role tools cid env.system_service_role_name "Systems services role") _
            then_ in
        let to_x =
          run-IsKept view u x (ensure_roles-Keeps view tools additive cid env.system_roles) f in
        let to_y =
          run-IsKept view x y
            (ensure_role-Keeps view tools additive cid env.system_service_role_name
              "Systems services role")
            g in
        let to_v =
          run-IsKept view y v
            (ensure_accounts-Keeps view tools additive env cid r env.system_accounts) last in
        (
          cid,
          r,
          to_v.client_kept cid (
              to_y.client_kept cid (
                to_x.client_kept cid (ensure_client-some view tools additive effective w u cid e))),
          HasRoles-kept cid env.system_roles (IsKept-trans view to_y to_v)
              (ensure_roles-some u x cid env.system_roles f),
          to_v.role_kept cid _ r (ensure_role-some view tools additive effective x y cid _ _ r g),
          ensure_accounts-some y v env cid r env.system_accounts last,
        )

    -- A run that succeeds has provided for everything: the client with each role of the environment and
    -- the service role, and for each account a user that has the service role, and a secret; and
    -- it has kept all clients, roles, users, grants and secrets as they were before. The commands
    -- add to the world and delete or overwrite none of these (IsAdditive), and what they create or find
    -- is there (IsEffective).
    pub setup-IsProvisioned :
        (env : Environment) (w v : World)
        → setup tools env w ≡ (some tt, v)
        → IsProvisioned env v × IsKept view w v
    unfolding setup
    setup-IsProvisioned env w v h =
        let (_, w1, _, h1) = >>=-some tools.rollout_status _ h in
        let (_, w2, _, h2) = >>=-some tools.config_credentials _ h1 in
        let (_, w3, _, h3) = >>=-some (ensure_realm tools) _ h2 in
        let (_, w4, _, h4) = >>=-some tools.update_profile _ h3 in
        (ensured w4 v env h4, run-IsKept view w v (setup-Keeps view tools additive env) h)
