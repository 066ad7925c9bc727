-- ===== src/Controller/Startup/Configured.antt =====
-- The configuration that main.go settles from the environment and the service account.
use mathlib.Core.Option.{some-injective}
use mathlib.Core.Path.{subst}
use dt4mob_platform.Prelude.{
  ◌≡◌, ◌≢◌, ◌⊎◌, inl, inr, refl, sym, Bool, Bool-cases, Option, some, if◌then◌else◌,
}
use dt4mob_platform.Prelude.Text.{String, ◌==◌, eq_iff}
use dt4mob_platform.Prelude.Chain.{>>=-eq-some}
use dt4mob_platform.Controller.State.{Config}
use dt4mob_platform.Controller.Startup.{settle_config}

abbrev pub IsNamespace : Option String → String → String → Type 0
IsNamespace namespace_file configured namespace =
    ((configured ≢ "") × (namespace ≡ configured))
    ⊎ ((configured ≡ "") × (namespace_file ≡ some namespace))

-- What the environment gives goes into the configuration, but for the namespace and the name of
-- the CA's secret where they are left out, which is then that of the TLS secret.
pub record IsConfigured (namespace_file : Option String) (read config : Config) : Type 0 where
  pub ca_secret_name :
      ((read.ca_secret_name ≢ "") × (config.ca_secret_name ≡ read.ca_secret_name))
      ⊎ ((read.ca_secret_name ≡ "") × (config.ca_secret_name ≡ read.tls_secret_name))
  pub namespace : IsNamespace namespace_file read.namespace config.namespace
  pub rest :
      config ≡ record read { ca_secret_name = config.ca_secret_name; namespace = config.namespace }

if-IsNamespace :
    (namespace_file : Option String) (configured namespace : String)
    → (if configured == "" then namespace_file else some configured) ≡ some namespace
    → IsNamespace namespace_file configured namespace
if-IsNamespace namespace_file configured namespace h = elim (Bool-cases (configured == "")) [
  | inl e ↦ inr ((eq_iff configured "").0 e, rw e at h)
  | inr e ↦ inl (λ same. cc (e, (eq_iff configured "").1 same), sym (cc (rw e at h)))
]

if-default :
    (name other : String)
    → ((name ≢ "") × ((if name == "" then other else name) ≡ name))
      ⊎ ((name ≡ "") × ((if name == "" then other else name) ≡ other))
if-default name other = elim (Bool-cases (name == "")) [
  | inl e ↦ inr ((eq_iff name "").0 e, rw e refl)
  | inr e ↦ inl (λ same. cc (e, (eq_iff name "").1 same), rw e refl)
]

pub settle_config-IsConfigured :
    (is_level : String → Bool) (namespace_file : Option String) (read config : Config)
    → settle_config is_level namespace_file read ≡ some config
    → IsConfigured namespace_file read config
unfolding settle_config
settle_config-IsConfigured is_level namespace_file read config h =
    elim (Bool-cases (is_level read.log_level)) [
      | inl e ↦
          let (namespace, found, h₁) =
            >>=-eq-some (if read.namespace == "" then namespace_file else some read.namespace) _
              (rw e at h) in
          subst (IsConfigured namespace_file read) (some-injective _ _ h₁) (record {
            ca_secret_name = if-default read.ca_secret_name read.tls_secret_name;
            namespace = if-IsNamespace namespace_file read.namespace namespace found;
            rest = refl;
          })
      | inr e ↦ cc (rw e at h)
    ]
