-- ===== src/Collector/Settings/Sources.antt =====
-- Where the garbage collector's credentials come from, once its settings are validated.
use dt4mob_platform.Prelude.{
  ◌≡◌, refl, ◌⊎◌, inl, inr, Option, none, some, List, [], ◌∷◌, Option-cases,
}
use dt4mob_platform.Prelude.Text.{String}
use dt4mob_platform.Collector.Settings.{
  AuthSettings, one_of, username_config_valid, password_config_valid, validate, Result, returned,
  os_error, content, value_of, get_username, get_password, auth_data,
}

-- A credential stands in the settings, or in a file that they name.
pub data Source : Type 0 where
  given : String → Source
  in_file : String → Source

-- The one source of a value and its file.
abbrev pub IsSource : Option String → Option String → Source → Type 0
IsSource value file (given text) = (value ≡ some text) × (file ≡ none)
IsSource value file (in_file path) = (value ≡ none) × (file ≡ some path)

sourceless : (source : Source) → ¬ IsSource none none source
sourceless (given text) (h, k) = cc h
sourceless (in_file path) (h, k) = cc k

twice_sourced : (value file : String) (source : Source) → ¬ IsSource (some value) (some file) source
twice_sourced value file (given text) (h, k) = cc k
twice_sourced value file (in_file path) (h, k) = cc h

module _ (read_file : String → Option String) where
  abbrev pub fetch : Source → Option String
  fetch (given text) = some text
  fetch (in_file path) = read_file path

  -- The form of the token request, if both sources can be read.
  abbrev pub form : AuthSettings → Option String → Option String → Result (List (String × String))
  form s (some username) (some password) = returned (
      ("grant_type", "password")
      ∷ ("username", username)
      ∷ ("password", password)
      ∷ ("client_id", s.client_id)
      ∷ [])
  form s none password = os_error
  form s (some username) none = os_error

  abbrev Judged : Option String → Option String → AuthSettings → Type 0
  Judged value file s =
      ((one_of value file s ≡ some s)
        × (source : Source) × IsSource value file source
        × (value_of read_file file value ≡ content (fetch source)))
      ⊎ ((one_of value file s ≡ none) × ((source : Source) → ¬ IsSource value file source))

  judged : (value file : Option String) (s : AuthSettings) → Judged value file s
  judged none none s = inr (refl, sourceless)
  judged (some value) (some file) s = inr (refl, twice_sourced value file)
  judged (some value) none s = inl (refl, given value, (refl, refl), refl)
  judged none (some file) s = inl (refl, in_file file, (refl, refl), refl)

  -- The credentials of settings that the validators accept each come from one source, which the form
  -- of the token request has if both can be read; and it is an OSError if not, never a failed
  -- assertion.
  abbrev pub IsSettled : AuthSettings → Type 0
  IsSettled s =
      (user : Source) × (secret : Source) × IsSource s.username s.username_file user
      × IsSource s.password s.password_file secret
      × (auth_data read_file s ≡ form s (fetch user) (fetch secret))

  combined :
      (s : AuthSettings) (user secret : Source)
      → value_of read_file s.username_file s.username ≡ content (fetch user)
      → value_of read_file s.password_file s.password ≡ content (fetch secret)
      → auth_data read_file s ≡ form s (fetch user) (fetch secret)
  unfolding auth_data get_username get_password
  combined s user secret e f = elim (Option-cases (fetch user)) [
    | inl none_there ↦ rw (e, none_there) refl
    | inr (u, there) ↦ elim (Option-cases (fetch secret)) [
      | inl none_there ↦ rw (e, there, f, none_there) refl
      | inr (p, found) ↦ rw (e, there, f, found) refl
    ]
  ]

  -- The validators accept exactly the settings that have one source of the username and one of the
  -- password, whether it is a value or a file. The form of the token request is then made of what is
  -- read from the two, or there is an OSError, and never a failed assertion.
  pub validate-IsSettled :
      (s : AuthSettings)
      → ((validate s ≡ some s) × IsSettled s)
        ⊎ ((validate s ≡ none)
            × ((user secret : Source)
                → IsSource s.username s.username_file user
                → ¬ IsSource s.password s.password_file secret))
  unfolding validate username_config_valid password_config_valid
  validate-IsSettled s = elim (judged s.username s.username_file s) [
    | inl (ok, user, one_user, e) ↦ elim (judged s.password s.password_file s) [
      | inl (fine, secret, one_secret, f) ↦
          inl (rw ok fine, (user, secret, one_user, one_secret, combined s user secret e f))
      | inr (bad, no_secret) ↦ inr (rw ok bad, λ u p h. no_secret p)
    ]
    | inr (bad, no_user) ↦ inr (rw bad refl, λ u p h. absurd (no_user u h))
  ]
