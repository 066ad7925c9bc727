-- ===== src/Controller/State/Missing.antt =====
-- When the controller has all that an update needs.
use dt4mob_platform.Prelude.{
  ◌≡◌, ◌≢◌, ◌↔◌, refl, Bool, true, false, not, Option, none, some, arith, is_some, if◌then◌else◌,
}
use dt4mob_platform.Prelude.Text.{String, ◌==◌, eq_iff}
use dt4mob_platform.Controller.State.{State, KeyPair, missing_initialization}

-- Every part that comes from a watch has arrived, and none is empty.
pub record IsInitialized (s : State) : Type 0 where
  pub has_tenant : s.tenant ≢ ""
  pub has_key_pair : s.key_pair ≢ none
  pub has_ca_crt : s.ca_crt ≢ ""
  pub has_trust_crt : s.trust_crt ≢ ""
  pub has_devops_password : s.devops_password ≢ ""

if_missing :
    (present : Bool) (name rest : String)
    → name ≢ ""
    → (if not present then name else rest) ≡ ""
    → (present ≡ true) × (rest ≡ "")
if_missing true name rest named h = (refl, h)
if_missing false name rest named h = absurd (named h)

is_some_iff : (pair : Option KeyPair) → (is_some pair ≡ true) ↔ (pair ≢ none)
is_some_iff none = (λ h. cc h, λ h. absurd (h refl))
is_some_iff (some pair) = (λ h e. cc e, λ h. refl)

test_iff : (s : String) → (not (s == "") ≡ true) ↔ (s ≢ "")
test_iff s = (λ h. ground (arith, eq_iff s ""), λ h. ground (arith, eq_iff s ""))

tests-IsInitialized :
    (s : State)
    → (not (s.tenant == "") ≡ true)
      × (is_some s.key_pair ≡ true)
      × (not (s.ca_crt == "") ≡ true)
      × (not (s.trust_crt == "") ≡ true)
      × (not (s.devops_password == "") ≡ true)
    → IsInitialized s
tests-IsInitialized s (a, b, c, d, e) = record {
  has_tenant = (test_iff s.tenant).0 a;
  has_key_pair = (is_some_iff s.key_pair).0 b;
  has_ca_crt = (test_iff s.ca_crt).0 c;
  has_trust_crt = (test_iff s.trust_crt).0 d;
  has_devops_password = (test_iff s.devops_password).0 e;
}

missing_initialization-IsInitialized : (s : State) → missing_initialization s ≡ "" → IsInitialized s
unfolding missing_initialization
missing_initialization-IsInitialized s h =
    let (a, h₁) =
      if_missing (not (s.tenant == "")) "Tenant" _ (λ e. ground (arith, eq_iff "Tenant" "")) h in
    let (b, h₂) =
      if_missing (is_some s.key_pair) "Key pair" _ (λ e. ground (arith, eq_iff "Key pair" "")) h₁ in
    let (c, h₃) =
      if_missing (not (s.ca_crt == "")) "CA certificate" _
        (λ e. ground (arith, eq_iff "CA certificate" "")) h₂ in
    let (d, h₄) =
      if_missing (not (s.trust_crt == "")) "Trust certificate" _
        (λ e. ground (arith, eq_iff "Trust certificate" "")) h₃ in
    let (e, h₅) =
      if_missing (not (s.devops_password == "")) "Devops password" _
        (λ e. ground (arith, eq_iff "Devops password" "")) h₄ in
    tests-IsInitialized s (a, b, c, d, e)

-- MissingInitialization names no part exactly when all five are there.
pub missing_initialization-eq-empty_iff :
    (s : State) → (missing_initialization s ≡ "") ↔ IsInitialized s
unfolding missing_initialization
missing_initialization-eq-empty_iff s = (
  λ h. missing_initialization-IsInitialized s h,
  λ h. rw (
    (test_iff s.tenant).1 h.has_tenant,
    (is_some_iff s.key_pair).1 h.has_key_pair,
    (test_iff s.ca_crt).1 h.has_ca_crt,
    (test_iff s.trust_crt).1 h.has_trust_crt,
    (test_iff s.devops_password).1 h.has_devops_password,
  ),
)
