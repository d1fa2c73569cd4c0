-- ===== src/Engine/Station.antt =====
-- weather-core/engine/src/station.rs: stations of the provider and their public identity. `digest` is
-- SHA-256, for the identifiers.
use weather_app.Common.{true, List, [], ◌∷◌, Option, none, some, ℕ, ◌≡◌, refl, arith, if◌then◌else◌}
use weather_app.Common.Text.{Text, is_empty}
use weather_app.Schema.Messages.{StationRef}
use weather_app.Schema.Station.{canonical_station_name}
use weather_app.Schema.Uuid.{unified_station_uuid}
use weather_app.Db.Catalog.{ProviderCity, ProviderStation, public_station}

abbrev pub or_text : Text → Text → Text
or_text value other = if is_empty value then other else value

abbrev pub upstream_or : Option StationRef → ProviderStation → StationRef
upstream_or none requested = public_station requested
upstream_or (some station) requested = station

unfoldable pub merge_station : (List ℕ → List ℕ) → Option StationRef → ProviderStation → StationRef
merge_station digest upstream requested =
    let station = upstream_or upstream requested in
    record {
      province = or_text station.province requested.province;
      city = or_text station.city requested.city;
      name = requested.name;
      unified_uuid =
          if is_empty requested.unified_uuid
          then unified_station_uuid digest requested.name
          else requested.unified_uuid;
    }

unfoldable pub city_to_provider_station :
    (List ℕ → List ℕ) → Text → Text → ProviderCity → ProviderStation
city_to_provider_station digest provider_name provider_province_code city =
    let name = canonical_station_name city.province city.city in
    record {
      provider_name = provider_name;
      display_name = name;
      provider_station_id = city.provider_code;
      provider_province_code = provider_province_code;
      province = city.province;
      city = city.city;
      url = city.url;
      name = name;
      unified_uuid = unified_station_uuid digest name;
    }

unfoldable pub station_names : ProviderStation → List Text
station_names station = canonical_station_name station.province station.city ∷ []

or_text-empty : (value other : Text) → is_empty (or_text value other) ≡ true → is_empty other ≡ true
or_text-empty value other h = ground arith

-- Whatever a provider answers about a city's station, the merged station has the public identity of
-- the one requested, a province and a city that are empty only if the city's are too.
merge_station-city :
    (digest : List ℕ → List ℕ) (upstream : Option StationRef) (provider code : Text)
    (city : ProviderCity)
    → let requested = city_to_provider_station digest provider code city in
      let merged = merge_station digest upstream requested in
      (station_names requested ≡ merged.name ∷ [])
      × (merged.unified_uuid ≡ unified_station_uuid digest merged.name)
      × (is_empty merged.province ≡ true → is_empty city.province ≡ true)
      × (is_empty merged.city ≡ true → is_empty city.city ≡ true)
unfolding merge_station city_to_provider_station station_names
merge_station-city digest upstream provider code city = (
  refl,
  ground arith,
  or_text-empty (upstream_or upstream _).province city.province,
  or_text-empty (upstream_or upstream _).city city.city,
)
