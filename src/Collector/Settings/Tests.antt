-- ===== src/Collector/Settings/Tests.antt =====
-- Tests of the settings of the garbage collector.
use Prim.Native.String.{String}
use dt4mob_platform.Prelude.{◌≡◌, refl, ◌⊎◌, Option, none, some, [], ◌∷◌}
use dt4mob_platform.Prelude.Int.{pos}
use dt4mob_platform.Collector.Settings.{
  AuthSettings, validate, returned, get_username, get_password, auth_data, DittoSettings,
}
use dt4mob_platform.Collector.Settings.Sources.{Source, IsSource, IsSettled, validate-IsSettled}

abbrev auth : AuthSettings
auth = record {
  token_endpoint = "https://localhost:8443/auth";
  username = some "collector";
  password = none;
  username_file = none;
  password_file = some "/run/secrets/password";
  ca_crt_file = none;
  client_id = "ditto";
}

abbrev read_file : String → Option String
read_file path = some "s3cret"

credentials :
    auth_data read_file auth
    ≡ returned (
        ("grant_type", "password")
        ∷ ("username", "collector")
        ∷ ("password", "s3cret")
        ∷ ("client_id", "ditto")
        ∷ [])
unfolding auth_data get_username get_password
credentials = refl

validate-IsSettled_example :
    ((validate auth ≡ some auth) × IsSettled read_file auth)
    ⊎ ((validate auth ≡ none)
        × ((user secret : Source)
            → IsSource (some "collector") none user
            → ¬ IsSource none (some "/run/secrets/password") secret))
validate-IsSettled_example = validate-IsSettled read_file auth

abbrev ditto : DittoSettings
ditto = record {
  api_url = "http://localhost:8080//";
  base_api_path = "/api/2/";
  base_ws_path = "/ws/2";
  search_size = pos 200;
}
