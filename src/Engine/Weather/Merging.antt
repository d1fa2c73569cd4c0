-- ===== src/Engine/Weather/Merging.antt =====
-- weather-core/engine/src/handlers/weather.rs: what a snapshot takes over from others, and when a
-- stored one is fresh. A time of 64 bits with a sign is the number of milliseconds since the least one;
-- `date_for_tz` is chrono's and fails for times and time zones that it does not know.
pub mod Alerts
pub mod Fresh
use weather_app.Common.{
  Bool, true, false, not, ◌&&◌, ◌||◌, List, [], ◌∷◌, ◌++◌, Option, none, some, ℕ, ◌-◌, ◌*◌, ◌^◌,
  min, any, if◌then◌else◌, ltb, leb, ◌==◌, list_eq, nat_eq, option_eq, u64_max, Result, ok, err,
  and_then, map_option, is_some,
}
use weather_app.Common.Text.{Text, text, is_empty, strip_suffix, join}
use weather_app.Schema.Weather.{WeatherAlert, WeatherSnapshot, ObservedWeather, no_observation}
use weather_app.Schema.Station.{short_region_name, canonical_station_name}
use weather_app.Engine.Task.{AnyError}
use weather_app.Config.{StationConfig}

abbrev pub i64_max : ℕ
i64_max = 2 ^ 63 - 1

unfoldable pub same_alert : WeatherAlert → WeatherAlert → Bool
same_alert left right =
    left.alert == right.alert
    && (left.province == right.province
        && (left.city == right.city
            && (left.issue_content == right.issue_content
                && (left.signal_type == right.signal_type
                    && left.signal_level == right.signal_level))))

abbrev pub inherit : WeatherAlert → WeatherAlert
inherit alert = record alert { inherited = true }

-- The loop over the alerts of the parent.
unfoldable pub push_alerts : List WeatherAlert → List WeatherAlert → List WeatherAlert
push_alerts alerts [] = alerts
push_alerts alerts (parent_alert ∷ later) =
    let inherited = inherit parent_alert in
    push_alerts
      (if any (λ current. same_alert current inherited) alerts
        then alerts
        else alerts ++ inherited ∷ [])
      later

abbrev pub observed : {F : Type 0} → Option (ObservedWeather F) → ObservedWeather F
observed none = no_observation
observed (some real) = real

-- Without the flag that says whether something was added: no caller reads it.
unfoldable pub merge_parent_alerts :
    {F : Type 0} → WeatherSnapshot F → List WeatherAlert → WeatherSnapshot F
merge_parent_alerts snapshot [] = snapshot
merge_parent_alerts snapshot (alert ∷ later) =
    let real = observed snapshot.real in
    record snapshot {
      real = some (record real { alerts = push_alerts real.alerts (alert ∷ later) });
    }

unfoldable pub municipality_air_parent_name : Text → Text → Option Text
municipality_air_parent_name province city =
    let municipality = short_region_name province in
    if not (is_some (strip_suffix (text "市") province))
    then none
    else if is_empty municipality || (city == municipality || city == province)
    then none
    else some (canonical_station_name province municipality)

unfoldable pub first_enabled_station_name : List StationConfig → Option Text
first_enabled_station_name [] = none
first_enabled_station_name (station ∷ stations) =
    if station.enabled then some station.name else first_enabled_station_name stations

unfoldable pub warning_summary : List Text → Option Text
warning_summary [] = none
warning_summary (warning ∷ warnings) = some (join (text "; ") (warning ∷ warnings))

abbrev pub same_date : Result Text AnyError → Result Text AnyError → Result Bool AnyError
same_date (err e) now = err e
same_date (ok date) (err e) = err e
same_date (ok date) (ok now) = ok (date == now)

unfoldable pub cached_snapshot_is_fresh :
    (ℕ → Text → Result Text AnyError) → ℕ → ℕ → ℕ → Text → Result Bool AnyError
cached_snapshot_is_fresh date_for_tz fetched_at_unix_ms now_unix_ms ttl_seconds timezone =
    let ttl_ms = min (min (ttl_seconds * 1000) u64_max) i64_max in
    let age_ms = min (now_unix_ms - fetched_at_unix_ms) i64_max in
    if leb ttl_ms age_ms
    then ok false
    else same_date (date_for_tz fetched_at_unix_ms timezone) (date_for_tz now_unix_ms timezone)
