-- ===== src/Engine/Fuzzy/Resolve.antt =====
-- weather-core/engine/src/handlers/fuzzy.rs: the station that a name resolves to.
use weather_app.Common.{Bool, ◌==◌, list_eq, nat_eq, any}
use weather_app.Common.Text.{Text}
use weather_app.Db.Catalog.{ProviderCity, ProviderStation}
use weather_app.Engine.Station.{station_names, city_to_provider_station}
use weather_app.Engine.Fuzzy.{Platform}

module _ (platform : Platform) (provider_name name : Text) where
  abbrev as_station : ProviderCity → ProviderStation
  as_station c = city_to_provider_station platform.digest provider_name c.provider_province_code c

  abbrev is_named : ProviderStation → Bool
  is_named s = any (λ candidate. candidate == name) (station_names s)
