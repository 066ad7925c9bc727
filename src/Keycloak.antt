-- ===== src/Keycloak.antt =====
-- images/keycloak-config/setup.sh: the realm, the client, the roles and the accounts that the platform
-- needs in Keycloak, and the accounts' secrets in Kubernetes.
pub mod Effects
pub mod Keeping
pub mod Provision
pub mod Sample
pub mod Success
mod Tests
use Prim.Native.String.{◌++◌}
use dt4mob_platform.Prelude.{Bool, true, false, Option, none, some, List, [], ◌∷◌, if◌then◌else◌}
use dt4mob_platform.Prelude.Text.{String, ◌==◌}

-- A piece of the script, which changes the world and ends with a value, or fails: `set -e` then ends
-- the script.
abbrev pub Script : Type 0 → Type 0 → Type 0
Script World A = World → Option A × World

abbrev pub continue :
    {World A B : Type 0} → (A → Script World B) → Option A × World → Option B × World
continue f (none, w) = (none, w)
continue f (some a, w) = f a w

infixl 5 ◌>>=◌ ◌>>◌
abbrev pub ◌>>=◌ : {World A B : Type 0} → Script World A → (A → Script World B) → Script World B
◌>>=◌ m f w = continue f (m w)

abbrev pub ◌>>◌ : {World B : Type 0} → Script World (Unit {0}) → Script World B → Script World B
m >> n = m >>= λ _. n

abbrev pub pure : {World A : Type 0} → A → Script World A
pure a w = (some a, w)

-- The status of a command that is a condition.
abbrev pub tested : {World A : Type 0} → Option A × World → Option Bool × World
tested (none, w) = (some false, w)
tested (some _, w) = (some true, w)

abbrev pub succeeds : {World A : Type 0} → Script World A → Script World Bool
succeeds m w = tested (m w)

-- `$(command || true)`
abbrev pub or_nothing : {World : Type 0} → Option String × World → Option String × World
or_nothing (none, w) = (some "", w)
or_nothing (some text, w) = (some text, w)

abbrev pub output : {World : Type 0} → Script World String → Script World String
output m w = or_nothing (m w)

-- The commands of kcadm, kubectl and jq that the script runs, in the realm that its environment names;
-- `get_user` ends with `none` for jq's `null`.
pub record Tools (World : Type 0) : Type 0 where
  pub rollout_status : Script World (Unit {0})
  pub config_credentials : Script World (Unit {0})
  pub get_realm : Script World (Unit {0})
  pub create_realm : Script World (Unit {0})
  pub update_profile : Script World (Unit {0})
  pub get_client : Script World String
  pub create_client : Script World String
  pub update_client : String → Script World (Unit {0})
  pub get_role : String → String → Script World String
  pub create_role : String → String → String → Script World String
  pub get_user : String → Script World (Option String)
  pub create_user : String → Script World String
  pub add_role : String → String → String → Script World (Unit {0})
  pub get_secret : String → Script World (Unit {0})
  pub draw_password : Script World String
  pub create_secret : String → String → String → Script World (Unit {0})
  pub set_password : String → String → Script World (Unit {0})

-- What the script reads of its environment, with the roles that jq lists and the names that `read`
-- takes of the accounts.
pub record Environment : Type 0 where
  pub system_roles : List (String × String)
  pub system_service_role_name : String
  pub system_accounts : List String
  pub accounts_prefix : String
  pub secrets_prefix : String

abbrev pub account_name : Environment → String → String
account_name env name = env.accounts_prefix ++ ("-" ++ name)

abbrev pub secret_name : Environment → String → String
secret_name env name = env.secrets_prefix ++ ("-" ++ (name ++ "-credentials"))

module _ {World : Type 0} (tools : Tools World) where
  open tools use {
    rollout_status, config_credentials, get_realm, create_realm, update_profile, get_client,
    create_client, update_client, get_role, create_role, get_user, create_user, add_role,
    get_secret, draw_password, create_secret, set_password,
  }

  pub ensure_realm : Script World (Unit {0})
  ensure_realm = do present ← succeeds get_realm; if present then pure tt else create_realm

  abbrev pub kept_client : String → Script World String
  kept_client cid = do update_client cid; pure cid

  pub ensure_client : Script World String
  ensure_client = do cid ← output get_client; if cid == "" then create_client else kept_client cid

  pub ensure_role : String → String → String → Script World String
  ensure_role cid name description = do
    role ← output (get_role cid name)
    if role == "" then create_role cid name description else pure role

  pub ensure_roles : String → List (String × String) → Script World (Unit {0})
  ensure_roles cid [] = pure tt
  ensure_roles cid ((name, description) ∷ roles) = do
    role ← ensure_role cid name description
    ensure_roles cid roles

  abbrev pub user_of : String → Option String → Script World String
  user_of name none = create_user name
  user_of name (some id) = pure id

  pub ensure_user : String → Script World String
  ensure_user name = do found ← get_user name; user_of name found

  abbrev pub new_secret : String → String → String → Script World (Unit {0})
  new_secret secret account id = do
    password ← draw_password
    create_secret secret account password
    set_password id password

  pub ensure_secret : String → String → String → Script World (Unit {0})
  ensure_secret secret account id = do
    present ← succeeds (get_secret secret)
    if present then pure tt else new_secret secret account id

  pub ensure_account : Environment → String → String → String → Script World (Unit {0})
  ensure_account env cid role name = do
    id ← ensure_user (account_name env name)
    add_role id cid role
    ensure_secret (secret_name env name) (account_name env name) id

  pub ensure_accounts : Environment → String → String → List String → Script World (Unit {0})
  ensure_accounts env cid role [] = pure tt
  ensure_accounts env cid role (name ∷ names) = do
    ensure_account env cid role name
    ensure_accounts env cid role names

  -- The script.
  pub setup : Environment → Script World (Unit {0})
  setup env = do
    rollout_status
    config_credentials
    ensure_realm
    update_profile
    cid ← ensure_client
    ensure_roles cid env.system_roles
    role ← ensure_role cid env.system_service_role_name "Systems services role"
    ensure_accounts env cid role env.system_accounts
