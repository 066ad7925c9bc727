-- ===== src/Keycloak/Keeping.antt =====
-- What the script of images/keycloak-config/setup.sh keeps, in each of its pieces.
use dt4mob_platform.Prelude.{
  ◌≡◌, Bool, true, false, Option, none, some, List, [], ◌∷◌, if◌then◌else◌,
}
use dt4mob_platform.Prelude.Text.{String, ◌==◌}
use dt4mob_platform.Keycloak.{
  Script, continue, ◌>>=◌, pure, tested, succeeds, or_nothing, output, Tools, Environment,
  account_name, secret_name, ensure_realm, ensure_client, ensure_role, ensure_roles, user_of,
  ensure_user, ensure_secret, ensure_account, ensure_accounts, setup,
}

-- What can be seen of the world: the id of the client, of a client's role and of a user, whether a user
-- has a role of a client, and what a secret holds.
pub record View (World : Type 0) : Type 0 where
  pub client : World → Option String
  pub role : World → String → String → Option String
  pub user : World → String → Option String
  pub has_role : World → String → String → String → Bool
  pub secret : World → String → Option (String × String)

module _ {World : Type 0} (view : View World) where
  open view use {client, role, user, has_role, secret}

  -- All that was there still is, as it was.
  pub record IsKept (w v : World) : Type 0 where
    pub client_kept : (id : String) → client w ≡ some id → client v ≡ some id
    pub role_kept : (cid name id : String) → role w cid name ≡ some id → role v cid name ≡ some id
    pub user_kept : (name id : String) → user w name ≡ some id → user v name ≡ some id
    pub grant_kept : (id cid r : String) → has_role w id cid r ≡ true → has_role v id cid r ≡ true
    pub secret_kept :
        (name : String) (content : String × String)
        → secret w name ≡ some content
        → secret v name ≡ some content

  pub IsKept-refl : (w : World) → IsKept w w
  IsKept-refl w = record {
    client_kept = λ id h. h;
    role_kept = λ cid name id h. h;
    user_kept = λ name id h. h;
    grant_kept = λ id cid r h. h;
    secret_kept = λ name content h. h;
  }

  pub IsKept-trans : {u v w : World} → IsKept u v → IsKept v w → IsKept u w
  IsKept-trans a b = record {
    client_kept = λ id h. b.client_kept id (a.client_kept id h);
    role_kept = λ cid name id h. b.role_kept cid name id (a.role_kept cid name id h);
    user_kept = λ name id h. b.user_kept name id (a.user_kept name id h);
    grant_kept = λ id cid r h. b.grant_kept id cid r (a.grant_kept id cid r h);
    secret_kept = λ name content h. b.secret_kept name content (a.secret_kept name content h);
  }

  -- A piece of the script that takes nothing away, however it ends.
  pub record Keeps {A : Type 0} (m : Script World A) : Type 0 where
    pub keeps : (w : World) → IsKept w (m w).1

  module _ {A B : Type 0} where
    continue-Keeps :
        (f : A → Script World B) (r : Option A × World) (w : World)
        → ((a : A) → Keeps (f a))
        → IsKept w r.1
        → IsKept w (continue f r).1
    continue-Keeps f (none, v) w h k = k
    continue-Keeps f (some a, v) w h k = IsKept-trans k ((h a).keeps v)

    pub >>=-Keeps :
        (m : Script World A) (f : A → Script World B)
        → Keeps m
        → ((a : A) → Keeps (f a))
        → Keeps (m >>= f)
    >>=-Keeps m f h k = record { keeps = λ w. continue-Keeps f (m w) w k (h.keeps w) }

  pub if-Keeps :
      {A : Type 0} (b : Bool) (m n : Script World A)
      → Keeps m
      → Keeps n
      → Keeps (if b then m else n)
  if-Keeps true m n h k = h
  if-Keeps false m n h k = k

  tested-IsKept :
      {A : Type 0} (r : Option A × World) (w : World) → IsKept w r.1 → IsKept w (tested r).1
  tested-IsKept (none, v) w h = h
  tested-IsKept (some a, v) w h = h

  pub succeeds-Keeps : {A : Type 0} (m : Script World A) → Keeps m → Keeps (succeeds m)
  succeeds-Keeps m h = record { keeps = λ w. tested-IsKept (m w) w (h.keeps w) }

  or_nothing-IsKept :
      (r : Option String × World) (w : World) → IsKept w r.1 → IsKept w (or_nothing r).1
  or_nothing-IsKept (none, v) w h = h
  or_nothing-IsKept (some text, v) w h = h

  pub output-Keeps : (m : Script World String) → Keeps m → Keeps (output m)
  output-Keeps m h = record { keeps = λ w. or_nothing-IsKept (m w) w (h.keeps w) }

  pub pure-Keeps : {A : Type 0} (a : A) → Keeps (pure a)
  pure-Keeps a = record { keeps = λ w. IsKept-refl w }

  -- No command of the script deletes or overwrites what it names, and each that creates or finds
  -- something has it there when it succeeds.
  pub record IsAdditive (tools : Tools World) : Type 0 where
    pub rollout_status : Keeps tools.rollout_status
    pub config_credentials : Keeps tools.config_credentials
    pub get_realm : Keeps tools.get_realm
    pub create_realm : Keeps tools.create_realm
    pub update_profile : Keeps tools.update_profile
    pub get_client : Keeps tools.get_client
    pub create_client : Keeps tools.create_client
    pub update_client : (id : String) → Keeps (tools.update_client id)
    pub get_role : (cid name : String) → Keeps (tools.get_role cid name)
    pub create_role : (cid name text : String) → Keeps (tools.create_role cid name text)
    pub get_user : (name : String) → Keeps (tools.get_user name)
    pub create_user : (name : String) → Keeps (tools.create_user name)
    pub add_role : (id cid r : String) → Keeps (tools.add_role id cid r)
    pub get_secret : (name : String) → Keeps (tools.get_secret name)
    pub draw_password : Keeps tools.draw_password
    pub create_secret : (name account pass : String) → Keeps (tools.create_secret name account pass)
    pub set_password : (id pass : String) → Keeps (tools.set_password id pass)

  module _ (tools : Tools World) (laws : IsAdditive tools) where
    pub ensure_realm-Keeps : Keeps (ensure_realm tools)
    unfolding ensure_realm
    ensure_realm-Keeps =
        >>=-Keeps _ _ (succeeds-Keeps _ laws.get_realm)
          λ present. if-Keeps present _ _ (pure-Keeps tt) laws.create_realm

    pub ensure_client-Keeps : Keeps (ensure_client tools)
    unfolding ensure_client
    ensure_client-Keeps = >>=-Keeps _ _ (output-Keeps _ laws.get_client) λ cid.
        if-Keeps (cid == "") _ _ laws.create_client
          (>>=-Keeps _ _ (laws.update_client cid) λ _. pure-Keeps cid)

    pub ensure_role-Keeps : (cid name text : String) → Keeps (ensure_role tools cid name text)
    unfolding ensure_role
    ensure_role-Keeps cid name text =
        >>=-Keeps _ _ (output-Keeps _ (laws.get_role cid name))
          λ found. if-Keeps (found == "") _ _ (laws.create_role cid name text) (pure-Keeps found)

    pub ensure_roles-Keeps :
        (cid : String) (roles : List (String × String)) → Keeps (ensure_roles tools cid roles)
    unfolding ensure_roles
    ensure_roles-Keeps cid [] = pure-Keeps tt
    ensure_roles-Keeps cid ((name, text) ∷ roles) =
        >>=-Keeps _ _ (ensure_role-Keeps cid name text) λ _. ensure_roles-Keeps cid roles

    user_of-Keeps : (name : String) (found : Option String) → Keeps (user_of tools name found)
    user_of-Keeps name none = laws.create_user name
    user_of-Keeps name (some id) = pure-Keeps id

    pub ensure_user-Keeps : (name : String) → Keeps (ensure_user tools name)
    unfolding ensure_user
    ensure_user-Keeps name = >>=-Keeps _ _ (laws.get_user name) (user_of-Keeps name)

    pub ensure_secret-Keeps :
        (name account id : String) → Keeps (ensure_secret tools name account id)
    unfolding ensure_secret
    ensure_secret-Keeps name account id =
        >>=-Keeps _ _ (succeeds-Keeps _ (laws.get_secret name)) λ present.
          if-Keeps present _ _ (pure-Keeps tt) (
            >>=-Keeps _ _ laws.draw_password λ pass.
              >>=-Keeps _ _ (laws.create_secret name account pass) λ _. laws.set_password id pass)

    pub ensure_account-Keeps :
        (env : Environment) (cid r name : String) → Keeps (ensure_account tools env cid r name)
    unfolding ensure_account
    ensure_account-Keeps env cid r name =
        >>=-Keeps _ _ (ensure_user-Keeps (account_name env name)) λ id.
          >>=-Keeps _ _ (laws.add_role id cid r)
            λ _. ensure_secret-Keeps (secret_name env name) (account_name env name) id

    pub ensure_accounts-Keeps :
        (env : Environment) (cid r : String) (names : List String)
        → Keeps (ensure_accounts tools env cid r names)
    unfolding ensure_accounts
    ensure_accounts-Keeps env cid r [] = pure-Keeps tt
    ensure_accounts-Keeps env cid r (name ∷ names) =
        >>=-Keeps _ _ (ensure_account-Keeps env cid r name)
          λ _. ensure_accounts-Keeps env cid r names

    -- Whatever fails, no client, role, user, grant of a role or secret that was there is lost or changed.
    pub setup-Keeps : (env : Environment) → Keeps (setup tools env)
    unfolding setup
    setup-Keeps env = >>=-Keeps _ _ laws.rollout_status λ _.
        >>=-Keeps _ _ laws.config_credentials λ _. >>=-Keeps _ _ ensure_realm-Keeps λ _.
          >>=-Keeps _ _ laws.update_profile λ _. >>=-Keeps _ _ ensure_client-Keeps λ cid.
            >>=-Keeps _ _ (ensure_roles-Keeps cid env.system_roles) λ _.
              >>=-Keeps _ _ (ensure_role-Keeps cid env.system_service_role_name _)
                λ r. ensure_accounts-Keeps env cid r env.system_accounts
