-- ===== src/Collector/Settings.antt =====
-- The settings of services/dt4mob-garbage-collector: src/settings/auth.py with the form that
-- AuthenticationService of src/services/auth/__init__.py makes of it, and the addresses of
-- src/settings/ditto.py.
pub mod Sources
pub mod Url
mod Tests
use Prim.Native.String.{◌++◌}
use dt4mob_platform.Prelude.{Option, none, some, List, [], ◌∷◌, if◌then◌else◌}
use dt4mob_platform.Prelude.Chain.{◌>>=◌}
use dt4mob_platform.Prelude.Text.{String, ◌==◌}
use dt4mob_platform.Prelude.Int.{ℤ}
use dt4mob_platform.Prelude.Text.Strip.{rstrip_slash, strip_slash}

pub record AuthSettings : Type 0 where
  pub token_endpoint : String
  pub username : Option String
  pub password : Option String
  pub username_file : Option String
  pub password_file : Option String
  pub ca_crt_file : Option String
  pub client_id : String

-- A validator of a value and its file, with what it returns; `none` is its ValueError.
abbrev one_of : Option String → Option String → AuthSettings → Option AuthSettings
one_of none none s = none
one_of (some value) (some file) s = none
one_of (some value) none s = some s
one_of none (some file) s = some s

pub username_config_valid : AuthSettings → Option AuthSettings
username_config_valid s = one_of s.username s.username_file s

pub password_config_valid : AuthSettings → Option AuthSettings
password_config_valid s = one_of s.password s.password_file s

-- The validators of the model, in their order.
pub validate : AuthSettings → Option AuthSettings
validate s = do checked ← username_config_valid s; password_config_valid checked

-- How a call ends: with a value, with an OSError, or with an AssertionError.
pub data Result (A : Type 0) : Type 0 where
  returned : A → Result A
  os_error : Result A
  assertion_error : Result A

abbrev content : Option String → Result String
content none = os_error
content (some text) = returned text

module _ (read_file : String → Option String) where
  -- `get_username` and `get_password`, of the file and the value.
  abbrev pub value_of : Option String → Option String → Result String
  value_of (some file) value = content (read_file file)
  value_of none none = assertion_error
  value_of none (some value) = returned value

  pub get_username : AuthSettings → Result String
  get_username s = value_of s.username_file s.username

  pub get_password : AuthSettings → Result String
  get_password s = value_of s.password_file s.password

  abbrev with_password : AuthSettings → String → Result String → Result (List (String × String))
  with_password s username os_error = os_error
  with_password s username assertion_error = assertion_error
  with_password s username (returned password) = returned (
      ("grant_type", "password")
      ∷ ("username", username)
      ∷ ("password", password)
      ∷ ("client_id", s.client_id)
      ∷ [])

  abbrev with_username : AuthSettings → Result String → Result (List (String × String))
  with_username s os_error = os_error
  with_username s assertion_error = assertion_error
  with_username s (returned username) = with_password s username (get_password s)

  -- `_auth_data` of AuthenticationService.__init__.
  pub auth_data : AuthSettings → Result (List (String × String))
  auth_data s = with_username s (get_username s)

pub record DittoSettings : Type 0 where
  pub api_url : String
  pub base_api_path : String
  pub base_ws_path : String
  pub search_size : ℤ

pub get_base_url : DittoSettings → String
get_base_url s = rstrip_slash s.api_url ++ ("/" ++ strip_slash s.base_api_path)

-- `_search_things_url` of DittoClient.
pub search_things_url : DittoSettings → String
search_things_url s = get_base_url s ++ "/search/things"

-- Python's urllib.parse: the scheme of `urlsplit`, its `_replace(scheme=...)` with `geturl`, and `urljoin`.
pub record UrlLib : Type 0 where
  pub scheme : String → String
  pub with_scheme : String → String → String
  pub urljoin : String → String → String

pub get_base_ws : UrlLib → DittoSettings → String
get_base_ws lib s = rstrip_slash (
    lib.urljoin
      (lib.with_scheme (if lib.scheme s.api_url == "https" then "wss" else "ws") s.api_url)
      s.base_ws_path)
