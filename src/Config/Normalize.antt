-- ===== src/Config/Normalize.antt =====
-- weather-core/conf/src/normalize.rs: the station names of a configuration.
use weather_app.Common.{
  Bool, true, false, not, ◌||◌, List, [], ◌∷◌, if◌then◌else◌, ◌==◌, list_eq, nat_eq,
}
use weather_app.Common.Text.{Text}
use weather_app.Schema.Station.{normalize_station_name}
use weather_app.Config.{StationConfig, AppConfig}

-- One round of the loop: the station is written only where its name changes.
unfoldable pub normalize_station : StationConfig → StationConfig × Bool
normalize_station station =
    let normalized = normalize_station_name station.name in
    if not (normalized == station.name)
    then (record station { name = normalized }, true)
    else (station, false)

unfoldable pub normalize_stations : List StationConfig → List StationConfig × Bool
normalize_stations [] = ([], false)
normalize_stations (station ∷ stations) =
    let (first, first_changed) = normalize_station station in
    let (rest, rest_changed) = normalize_stations stations in
    (first ∷ rest, first_changed || rest_changed)

-- The configuration as it is left, and whether it changed.
unfoldable pub normalize_config_stations : AppConfig → AppConfig × Bool
normalize_config_stations config =
    let (stations, changed) = normalize_stations config.stations in
    (record config { stations = stations }, changed)

abbrev pub names : List StationConfig → List Text
names [] = []
names (s ∷ stations) = s.name ∷ names stations

abbrev pub states : List StationConfig → List Bool
states [] = []
states (s ∷ stations) = s.enabled ∷ states stations
