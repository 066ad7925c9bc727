-- ===== src/Historical/Settings.antt =====
-- The settings of the historical services that their clients are built from: app/settings/timescale.py
-- of services/dt4mob-historical-api, whose TimeScaleSettings the writer repeats in
-- src/settings/timescale.py, and src/settings/kafka.py of services/dt4mob-historical-writer.
mod Tests
use dt4mob_platform.Prelude.{◌≡◌, refl, true, List, [], ◌∷◌}
use dt4mob_platform.Prelude.Text.{String}
use dt4mob_platform.Prelude.Text.Replace.{replace, join, all_absent, replace-join}

pub record TimeScaleSettings : Type 0 where
  pub database_timezone : String
  pub connection : String

abbrev pub driver : String
driver = "postgresql+psycopg"

-- The URL of `create_engine`.
pub get_connection : TimeScaleSettings → String
get_connection settings = replace "p" "ostgresql" driver settings.connection

-- Is `postgresql` in none of those?
abbrev pub IsFreeOfPostgresql : List String → Type 0
IsFreeOfPostgresql parts = all_absent "p" "ostgresql" driver parts ≡ true

-- Every `postgresql` of the connection is replaced, at whatever place of the URL it stands, and what
-- stands between them is kept: the parts are any texts without `postgresql`, which the connection
-- joins by it.
pub get_connection-join :
    (settings : TimeScaleSettings) (parts : List String)
    → settings.connection ≡ join "postgresql" parts
    → IsFreeOfPostgresql parts
    → get_connection settings ≡ join "postgresql+psycopg" parts
unfolding get_connection
get_connection-join settings parts e h = rw e (replace-join "p" "ostgresql" driver refl parts h)

pub record KafkaSettings : Type 0 where
  pub bootstrap_servers : String
  pub security_protocol : String
  pub ssl_ca_location : String
  pub ssl_certificate_location : String
  pub ssl_key_location : String
  pub consumer_group : String
  pub topic : String
  pub auto_offset_reset : String

-- The configuration of the consumer.
pub as_dict : KafkaSettings → List (String × String)
as_dict settings =
    ("bootstrap.servers", settings.bootstrap_servers)
    ∷ ("security.protocol", settings.security_protocol)
    ∷ ("ssl.ca.location", settings.ssl_ca_location)
    ∷ ("ssl.certificate.location", settings.ssl_certificate_location)
    ∷ ("ssl.key.location", settings.ssl_key_location)
    ∷ ("group.id", settings.consumer_group)
    ∷ ("auto.offset.reset", settings.auto_offset_reset)
    ∷ []
