-- ===== src/Historical/Timescale.antt =====
-- What follows the creation of the event table in app/models/ditto_events.py of
-- services/dt4mob-historical-api, which the writer repeats in src/models/ditto_events.py.
use Prim.Native.String.{◌++◌}
use dt4mob_platform.Prelude.{◌≡◌, refl, Bool, true, List, [], ◌∷◌, if◌then◌else◌}
use dt4mob_platform.Prelude.Text.{String}

-- `__timescale_config__`
pub record TimescaleConfig : Type 0 where
  pub time_column : String
  pub chunk_time_interval : String
  pub compress : Bool
  pub compress_segmentby : String
  pub compress_orderby : String
  pub compress_interval : String

abbrev pub timescale_config : TimescaleConfig
timescale_config = record {
  time_column = "time";
  chunk_time_interval = "1 days";
  compress = true;
  compress_segmentby = "thing_id";
  compress_orderby = "time DESC";
  compress_interval = "7 days";
}

abbrev hypertable : String → TimescaleConfig → String
hypertable name config =
    "SELECT create_hypertable('"
    ++ (name
        ++ ("', '"
            ++ (config.time_column
                ++ ("', chunk_time_interval => INTERVAL '"
                    ++ (config.chunk_time_interval ++ "', if_not_exists => TRUE);")))))

abbrev compression : String → TimescaleConfig → String
compression name config =
    "ALTER TABLE "
    ++ (name
        ++ (" SET (timescaledb.compress, timescaledb.compress_segmentby = '"
            ++ (config.compress_segmentby
                ++ ("', timescaledb.compress_orderby = '" ++ (config.compress_orderby ++ "');")))))

abbrev policy : String → TimescaleConfig → String
policy name config =
    "SELECT add_compression_policy('"
    ++ (name ++ ("', INTERVAL '" ++ (config.compress_interval ++ "', if_not_exists => TRUE);")))

-- The statements that are executed, in their order.
pub create_timescale_features : String → TimescaleConfig → List String
create_timescale_features name config =
    hypertable name config
    ∷ (if config.compress then compression name config ∷ policy name config ∷ [] else [])

statements :
    create_timescale_features "dittoevent" timescale_config
    ≡ "SELECT create_hypertable('dittoevent', 'time', chunk_time_interval => INTERVAL '1 days', if_not_exists => TRUE);"
      ∷ "ALTER TABLE dittoevent SET (timescaledb.compress, timescaledb.compress_segmentby = 'thing_id', timescaledb.compress_orderby = 'time DESC');"
      ∷ "SELECT add_compression_policy('dittoevent', INTERVAL '7 days', if_not_exists => TRUE);"
      ∷ []
unfolding create_timescale_features
statements = refl
