-- ===== src/Engine/Weather/Services.antt =====
-- weather-core/engine/src/handlers/weather.rs: the services that a weather request uses.
use weather_app.Common.{Bool, List, Option, ℕ, Result}
use weather_app.Common.Text.{Text}
use weather_app.Schema.Weather.{WeatherSnapshot}
use weather_app.Config.{AppConfig}
use weather_app.Db.Catalog.{ProviderStation}
use weather_app.Engine.Task.{AnyError, Await}
use weather_app.Engine.Weather.Temperatures.{StoredSnapshot}

pub record WeatherFetch (F : Type 0) : Type 0 where
  pub snapshot : WeatherSnapshot F
  pub warnings : List Text

-- The database, the provider, the registry of resources, the clock and the configuration, as the
-- state `S` has them. `fly` waits in the flight of a key: for the result of another call, or
-- until this call is the one to fetch (`none`).
pub record Services (F S : Type 0) : Type 0 where
  pub config : S → AppConfig
  pub now_unix_ms : S → ℕ
  pub date_for_tz : ℕ → Text → Result Text AnyError
  pub digest : List ℕ → List ℕ
  pub provider_name : Text
  pub register : Text → S → S × Option Text
  pub get_latest_snapshot : Text → Await S (Result (Option (StoredSnapshot F)) AnyError)
  pub put_history_snapshot : WeatherSnapshot F → ℕ → Await S (Result (Unit {0}) AnyError)
  pub log_fetch : Option Text → Text → Bool → Option Text → Await S (Result (Unit {0}) AnyError)
  pub get_provider_station_by_uuid :
      Text → Text → Await S (Result (Option ProviderStation) AnyError)
  pub get_provider_station_by_name :
      Text → Text → Await S (Result (Option ProviderStation) AnyError)
  pub resolve_station_name_from_targeted_index : Text → Await S (Result ProviderStation AnyError)
  pub weather : Text → Bool → Await S (Result (WeatherFetch F) AnyError)
  pub fly : Text × Bool → Await S (Option (Result (WeatherSnapshot F) Text))
