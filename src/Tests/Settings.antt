-- ===== src/Tests/Settings.antt =====
-- weather-core/conf/src at concrete inputs.
use weather_app.Common.{true, false, [], ◌∷◌, none, ◌≡◌, ◌↔◌, refl}
use weather_app.Common.Text.{text}
use weather_app.Config.{AppConfig}
use weather_app.Config.Validate.{restart_required_fields, restart_required_fields_iff}

abbrev pub base_config : AppConfig
base_config = record {
  config_version = 2;
  engine = record {
    request_timeout_ms = 30000;
    startup_timeout_ms = 10000;
    lock_path = text "engine.lock";
    log_level = text "info";
  };
  ipc = record {
    rpc_endpoint = text "tcp://127.0.0.1:44445";
    pub_endpoint = text "tcp://127.0.0.1:44444";
    hmac = text "disabled";
    hmac_key = [];
    hmac_env_key_name = [];
  };
  db = record { path = text "weather.db"; timezone = text "UTC" };
  updater = record {
    weather_ttl_seconds = 60;
    province_ttl_seconds = 3600;
    default_provider = text "nmc";
    network = record {
      http_proxy = none;
      https_proxy = none;
      no_proxy = none;
      all_proxy = none;
      allow_insecure = false;
    };
    provider = [];
  };
  stations = [];
}

abbrev moved_db : AppConfig
moved_db = record base_config { db = record { path = text "other.db"; timezone = text "UTC" } }

restart_test : restart_required_fields base_config moved_db ≡ text "db" ∷ []
unfolding restart_required_fields
restart_test = refl

restart_required_fields_iff_example : (restart_required_fields base_config moved_db ≡ []) ↔ (
    (base_config.engine ≡ moved_db.engine)
    × (base_config.ipc ≡ moved_db.ipc)
    × (base_config.db ≡ moved_db.db)
    × (base_config.updater.default_provider ≡ moved_db.updater.default_provider)
    × (base_config.updater.network ≡ moved_db.updater.network)
    × (base_config.updater.provider ≡ moved_db.updater.provider))
restart_required_fields_iff_example = restart_required_fields_iff base_config moved_db

abbrev untidy : AppConfig
untidy = record base_config {
  stations =
      record { name = text " 北京 -  - 朝阳 "; enabled = false }
      ∷ record { name = text "湖北-湖北省-武汉"; enabled = true }
      ∷ [];
}
