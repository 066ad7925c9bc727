-- ===== src/Keycloak/Sample.antt =====
-- A Keycloak and a Kubernetes in memory, with one client, whose commands keep the laws that
-- Keycloak/Effects and Keycloak/Keeping ask for.
use mathlib.Core.Path.{subst}
use mathlib.Core.Option.{some-injective}
use dt4mob_platform.Prelude.{
  ◌≡◌, ◌≢◌, refl, sym, ap, Bool, true, false, Option, none, some, List, ◌∷◌, arith, if◌then◌else◌,
}
use dt4mob_platform.Prelude.Text.{String, eq_iff, contains, lookup}
use dt4mob_platform.Keycloak.{Script, pure, Tools}
use dt4mob_platform.Keycloak.Keeping.{View, IsKept, IsKept-refl, Keeps, pure-Keeps, IsAdditive}
use dt4mob_platform.Keycloak.Effects.{IsEffective}

pub record Cluster : Type 0 where
  pub has_client : Bool
  pub roles : List String
  pub users : List String
  pub granted : List String
  pub secrets : List (String × (String × String))

abbrev if_there : List String → String → Option String
if_there names name = if contains names name then some name else none

abbrev pub view : View Cluster
view = record {
  client = λ w. if w.has_client then some "c1" else none;
  role = λ w cid name. if_there w.roles name;
  user = λ w name. if_there w.users name;
  has_role = λ w id cid r. contains w.granted id;
  secret = λ w name. lookup name w.secrets;
}

abbrev is_there : Option (String × String) → Option (Unit {0})
is_there none = none
is_there (some content) = some tt

abbrev stored :
    String → String × String → Cluster → Option (String × String) → Option (Unit {0}) × Cluster
stored name content w none = (some tt, record w { secrets = (name, content) ∷ w.secrets })
stored name content w (some old) = (none, w)

abbrev pub tools : Tools Cluster
tools = record {
  rollout_status = pure tt;
  config_credentials = pure tt;
  get_realm = pure tt;
  create_realm = pure tt;
  update_profile = pure tt;
  get_client = λ w. (some (if w.has_client then "c1" else ""), w);
  create_client = λ w. (some "c1", record w { has_client = true });
  update_client = λ id. pure tt;
  get_role = λ cid name w. (if_there w.roles name, w);
  create_role = λ cid name text w. (some name, record w { roles = name ∷ w.roles });
  get_user = λ name w. (some (if_there w.users name), w);
  create_user = λ name w. (some name, record w { users = name ∷ w.users });
  add_role = λ id cid r w. (some tt, record w { granted = id ∷ w.granted });
  get_secret = λ name w. (is_there (lookup name w.secrets), w);
  draw_password = pure "s3cret";
  create_secret = λ name account pass w. stored name (account, pass) w (lookup name w.secrets);
  set_password = λ id pass. pure tt;
}

still : {A : Type 0} (m : Script Cluster A) → ((w : Cluster) → (m w).1 ≡ w) → Keeps view m
still m h = record { keeps = λ w. rw h (IsKept-refl view w) }

kept_there :
    (names : List String) (new name id : String)
    → if_there names name ≡ some id
    → if_there (new ∷ names) name ≡ some id
kept_there names new name id h = ground arith

created_client :
    (b : Bool) (id : String) → (if b then some "c1" else none) ≡ some id → some "c1" ≡ some id
created_client true id h = h
created_client false id h = cc h

stored-IsKept :
    (name : String) (content : String × String) (w : Cluster) (old : Option (String × String))
    → lookup name w.secrets ≡ old
    → IsKept view w (stored name content w old).1
stored-IsKept name content w (some old) h = IsKept-refl view w
stored-IsKept name content w none h = record {
  client_kept = λ id k. k;
  role_kept = λ cid n id k. k;
  user_kept = λ n id k. k;
  grant_kept = λ id cid r k. k;
  secret_kept = λ n c k. ground (arith, eq_iff name n);
}

pub tools-IsAdditive : IsAdditive view tools
tools-IsAdditive = record {
  rollout_status = pure-Keeps view tt;
  config_credentials = pure-Keeps view tt;
  get_realm = pure-Keeps view tt;
  create_realm = pure-Keeps view tt;
  update_profile = pure-Keeps view tt;
  get_client = still _ (λ w. refl);
  create_client = record {
    keeps = λ w. record {
      client_kept = λ id k. created_client w.has_client id k;
      role_kept = λ cid n id k. k;
      user_kept = λ n id k. k;
      grant_kept = λ id cid r k. k;
      secret_kept = λ n c k. k;
    };
  };
  update_client = λ id. pure-Keeps view tt;
  get_role = λ cid name. still _ (λ w. refl);
  create_role = λ cid name text. record {
    keeps = λ w. record {
      client_kept = λ id k. k;
      role_kept = λ cid n id k. kept_there w.roles name n id k;
      user_kept = λ n id k. k;
      grant_kept = λ id cid r k. k;
      secret_kept = λ n c k. k;
    };
  };
  get_user = λ name. still _ (λ w. refl);
  create_user = λ name. record {
    keeps = λ w. record {
      client_kept = λ id k. k;
      role_kept = λ cid n id k. k;
      user_kept = λ n id k. kept_there w.users name n id k;
      grant_kept = λ id cid r k. k;
      secret_kept = λ n c k. k;
    };
  };
  add_role = λ new cid r. record {
    keeps = λ w. record {
      client_kept = λ id k. k;
      role_kept = λ cid n id k. k;
      user_kept = λ n id k. k;
      grant_kept = λ id cid r k. ground arith;
      secret_kept = λ n c k. k;
    };
  };
  get_secret = λ name. still _ (λ w. refl);
  draw_password = pure-Keeps view "s3cret";
  create_secret = λ name account pass. record {
    keeps = λ w. stored-IsKept name (account, pass) w (lookup name w.secrets) refl;
  };
  set_password = λ id pass. pure-Keeps view tt;
}

ended :
    {A : Type 0} {a b : Option A} {w v : Cluster}
    → ◌≡◌ {A = Option A × Cluster} (a, w) (b, v)
    → (a ≡ b) × (w ≡ v)
ended {A = A} e = (ap (λ (r : Option A × Cluster). r.0) e, ap (λ (r : Option A × Cluster). r.1) e)

found_client :
    (b : Bool) (cid : String)
    → cid ≢ ""
    → some (if b then "c1" else "") ≡ some cid
    → (if b then some "c1" else none) ≡ some cid
found_client true cid h e = e
found_client false cid h e = absurd (h (sym (some-injective _ _ e)))

new_there : (names : List String) (name : String) → contains (name ∷ names) name ≡ true
new_there names name = ground (arith, eq_iff name name)

found_secret :
    (found : Option (String × String))
    → is_there found ≡ some tt
    → (content : String × String) × (found ≡ some content)
found_secret none e = cc e
found_secret (some content) e = (content, refl)

stored_secret :
    (name : String) (content : String × String) (w v : Cluster) (old : Option (String × String))
    → stored name content w old ≡ (some tt, v)
    → lookup name v.secrets ≡ some content
stored_secret name content w v (some old) e = cc ((ended e).0)
stored_secret name content w v none e =
    subst (λ (x : Cluster). lookup name x.secrets ≡ some content) (ended e).1
      (ground (arith, eq_iff name name))

pub tools-IsEffective : IsEffective view tools
tools-IsEffective = record {
  get_client = λ w v cid h e.
      subst (λ x. view.client x ≡ some cid) (ended e).1
        (found_client w.has_client cid h (ended e).0);
  create_client = λ w v cid e. subst (λ x. view.client x ≡ some cid) (ended e).1 (ended e).0;
  get_role =
      λ w v cid name id h e. subst (λ x. view.role x cid name ≡ some id) (ended e).1 (ended e).0;
  create_role = λ w v cid name text id e.
      subst (λ x. view.role x cid name ≡ some id) (ended e).1
        (rw (new_there w.roles name) (ended e).0);
  get_user = λ w v name id e.
      subst (λ x. view.user x name ≡ some id) (ended e).1 (some-injective _ _ (ended e).0);
  create_user = λ w v name id e.
      subst (λ x. view.user x name ≡ some id) (ended e).1 (rw (new_there w.users name) (ended e).0);
  add_role = λ w v id cid r e.
      subst (λ x. view.has_role x id cid r ≡ true) (ended e).1 (new_there w.granted id);
  get_secret = λ w v name e.
      let (content, there) = found_secret (lookup name w.secrets) (ended e).0 in
      (content, subst (λ x. view.secret x name ≡ some content) (ended e).1 there);
  create_secret =
      λ w v name account pass e. stored_secret name (account, pass) w v (lookup name w.secrets) e;
}
