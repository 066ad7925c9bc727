-- ===== src/Keycloak/Effects.antt =====
-- What each piece of images/keycloak-config/setup.sh leaves behind when it succeeds.
use mathlib.Core.Path.{subst}
use dt4mob_platform.Prelude.{◌≡◌, ◌≢◌, sym, ap, ◌∙◌, true, Option, none, some, Bool-cases, inl, inr}
use dt4mob_platform.Prelude.Text.{String, ◌==◌}
use dt4mob_platform.Keycloak.{
  Script, pure, succeeds, output, Tools, ensure_client, ensure_role, user_of, ensure_user,
  new_secret, ensure_secret,
}
use dt4mob_platform.Keycloak.Keeping.{View, IsKept, Keeps, IsAdditive}
use dt4mob_platform.Keycloak.Success.{>>=-some, tested-true, pure-some, or_nothing-some, is_full}

module _ {World : Type 0} (view : View World) where
  open view use {client, role, user, has_role, secret}

  pub run-IsKept :
      {A : Type 0} {m : Script World A} {r : Option A} (w v : World)
      → Keeps view m
      → m w ≡ (r, v)
      → IsKept view w v
  run-IsKept {A = A} w v k e =
      subst (IsKept view w) (ap (λ (d : Option A × World). d.1) e) (k.keeps w)

  -- A command that creates or finds something has it there when it succeeds.
  pub record IsEffective (tools : Tools World) : Type 0 where
    pub get_client :
        (w v : World) (cid : String)
        → cid ≢ ""
        → tools.get_client w ≡ (some cid, v)
        → client v ≡ some cid
    pub create_client :
        (w v : World) (cid : String) → tools.create_client w ≡ (some cid, v) → client v ≡ some cid
    pub get_role :
        (w v : World) (cid name id : String)
        → id ≢ ""
        → tools.get_role cid name w ≡ (some id, v)
        → role v cid name ≡ some id
    pub create_role :
        (w v : World) (cid name text id : String)
        → tools.create_role cid name text w ≡ (some id, v)
        → role v cid name ≡ some id
    pub get_user :
        (w v : World) (name id : String)
        → tools.get_user name w ≡ (some (some id), v)
        → user v name ≡ some id
    pub create_user :
        (w v : World) (name id : String)
        → tools.create_user name w ≡ (some id, v)
        → user v name ≡ some id
    pub add_role :
        (w v : World) (id cid r : String)
        → tools.add_role id cid r w ≡ (some tt, v)
        → has_role v id cid r ≡ true
    pub get_secret :
        (w v : World) (name : String)
        → tools.get_secret name w ≡ (some tt, v)
        → (content : String × String) × (secret v name ≡ some content)
    pub create_secret :
        (w v : World) (name account pass : String)
        → tools.create_secret name account pass w ≡ (some tt, v)
        → secret v name ≡ some (account, pass)

  module _ (tools : Tools World) (additive : IsAdditive view tools)
      (effective : IsEffective tools) where
    pub ensure_client-some :
        (w v : World) (cid : String) → ensure_client tools w ≡ (some cid, v) → client v ≡ some cid
    unfolding ensure_client
    ensure_client-some w v cid h =
        let (found, u, e, rest) = >>=-some (output tools.get_client) _ h in
        elim (Bool-cases (found == "")) [
          | inl blank ↦ effective.create_client u v cid (rw blank at rest)
          | inr full ↦
              let some_id = is_full found full in
              let there =
                effective.get_client w u found some_id
                  (or_nothing-some (tools.get_client w) some_id e) in
              let (_, x, updated, last) =
                >>=-some (tools.update_client found) (λ _. pure found) (rw full at rest) in
              let kept = run-IsKept u x (additive.update_client found) updated in
              let (same, end) = pure-some found x last in
              ap client (sym end) ∙ kept.client_kept found there ∙ same
        ]

    pub ensure_role-some :
        (w v : World) (cid name text id : String)
        → ensure_role tools cid name text w ≡ (some id, v)
        → role v cid name ≡ some id
    unfolding ensure_role
    ensure_role-some w v cid name text id h =
        let (found, u, e, rest) = >>=-some (output (tools.get_role cid name)) _ h in
        elim (Bool-cases (found == "")) [
          | inl blank ↦ effective.create_role u v cid name text id (rw blank at rest)
          | inr full ↦
              let some_id = is_full found full in
              let there =
                effective.get_role w u cid name found some_id
                  (or_nothing-some (tools.get_role cid name w) some_id e) in
              let (same, end) = pure-some found u (rw full at rest) in
              ap (λ x. role x cid name) (sym end) ∙ there ∙ same
        ]

    user_of-some :
        (w u v : World) (name id : String) (found : Option String)
        → tools.get_user name w ≡ (some found, u)
        → user_of tools name found u ≡ (some id, v)
        → user v name ≡ some id
    user_of-some w u v name id none e h = effective.create_user u v name id h
    user_of-some w u v name id (some known) e h =
        let (same, end) = pure-some known u h in
        ap (λ x. user x name) (sym end) ∙ effective.get_user w u name known e ∙ same

    pub ensure_user-some :
        (w v : World) (name id : String)
        → ensure_user tools name w ≡ (some id, v)
        → user v name ≡ some id
    unfolding ensure_user
    ensure_user-some w v name id h =
        let (found, u, e, rest) = >>=-some (tools.get_user name) _ h in
        user_of-some w u v name id found e rest

    new_secret-some :
        (w v : World) (name account id : String)
        → new_secret tools name account id w ≡ (some tt, v)
        → (content : String × String) × (secret v name ≡ some content)
    new_secret-some w v name account id h =
        let (pass, u, drawn, rest) = >>=-some tools.draw_password _ h in
        let (_, x, made, last) = >>=-some (tools.create_secret name account pass) _ rest in
        let kept = run-IsKept x v (additive.set_password id pass) last in
        (
          (account, pass),
          kept.secret_kept name (account, pass)
              (effective.create_secret u x name account pass made),
        )

    pub ensure_secret-some :
        (w v : World) (name account id : String)
        → ensure_secret tools name account id w ≡ (some tt, v)
        → (content : String × String) × (secret v name ≡ some content)
    unfolding ensure_secret
    ensure_secret-some w v name account id h =
        let (present, u, e, rest) = >>=-some (succeeds (tools.get_secret name)) _ h in
        elim (Bool-cases present) [
          | inl is_there ↦
              let (_, found) = tested-true (tools.get_secret name w) (rw is_there at e) in
              let (content, there) = effective.get_secret w u name found in
              let (_, end) = pure-some tt u (rw is_there at rest) in
              (content, ap (λ x. secret x name) (sym end) ∙ there)
          | inr missing ↦ new_secret-some u v name account id (rw missing at rest)
        ]
