-- ===== src/Tests/Weather.antt =====
-- weather-core/engine/src/handlers/weather.rs at concrete inputs. A `double` is a number, and a date its
-- text.
use weather_app.Common.{
  true, false, ◌||◌, List, [], ◌∷◌, map, Option, none, some, ℕ, ◌+◌, ◌*◌, ◌<◌, ◌-◌, min, ◌≡◌, ◌≢◌,
  ◌↔◌, ◌⊎◌, refl, all, any, distinct, length, eqb, list_eq, nat_eq, option_eq, Result, ok, err,
  if◌then◌else◌,
}
use weather_app.Common.Text.{
  Text, text, strip_suffix, parse_usize, is_whitespace, trim, trim_start, trim_end,
  trim_end_matches, before_whitespace, first_word, split, join,
}
use weather_app.Schema.Weather.{
  GetWeatherRequest, WeatherSnapshot, WeatherAlert, ForecastDay, no_observation,
}
use weather_app.Db.Catalog.{ProviderStation}
use weather_app.Engine.Weather.Temperatures.{
  Platform, StoredSnapshot, merge_cached_daily_high, parse_full_date, snapshot_daily_high,
  current_forecast_index, parse_relative_date, parse_temperature, current_temperature_chart_index,
  temperature_text,
}
use weather_app.Engine.Weather.Temperatures.High.{Preserves, merge_cached_daily_high_lem}
use weather_app.Engine.Task.{
  AnyError, World, ◌>>=◌, ◌>>◌, ◌>>?◌, on_ok, return, await, reads, calls, publish,
}
use weather_app.Engine.Weather.Merging.{
  i64_max, same_alert, merge_parent_alerts, cached_snapshot_is_fresh, municipality_air_parent_name,
}
use weather_app.Engine.Weather.Merging.Alerts.{alert_key, alerts_of, merge_parent_alerts_lem}
use weather_app.Engine.Weather.Merging.Fresh.{cached_snapshot_is_fresh_iff}
use weather_app.Engine.Weather.Services.{Services, WeatherFetch}
use weather_app.Engine.Weather.Fetch.{
  fetch_weather_uncached, failed_weather, stale_weather, apply_cached_municipality_air,
  apply_parent_alerts,
}
use weather_app.Engine.Weather.Quiet.{Silent}
use weather_app.Engine.Weather.Refreshes.{Reported, handle_weather_request-Reported}
use weather_app.Engine.Weather.Request.{
  handle_weather_request, get_weather_internal, start, started_weather, guarded, resolve_station,
  station_weather, queue_fetch, run_flight, complete, prepare_snapshot_resources, prepare_alerts,
}
use weather_app.Schema.Station.{
  short_region_name, canonical_station_name, parent_station_name, normalize_station_name,
  station_parts,
}
use weather_app.Tests.Settings.{base_config}

abbrev platform : Platform ℕ Text
platform = record {
  parse_float = parse_usize;
  is_finite = λ n. true;
  is_whole = λ n. true;
  whole_text = λ n. n ∷ [];
  float_text = λ n. n ∷ [];
  date_key = list_eq;
  parse_from_str = λ date format. if eqb (length date) 10 then some date else none;
  year = λ date. 2026;
  month = λ date. 1;
  day = λ date. 1;
  from_ymd = λ year month day. none;
  days_between = λ a b. 0;
}

abbrev alert : Text → WeatherAlert
alert name = record {
  alert = some name;
  province = none;
  city = none;
  url = some (text "http://alert");
  issue_content = none;
  prevention = none;
  signal_type = none;
  signal_level = none;
  icon_url = some (text "http://icon");
  icon_name = none;
  icon_resource_id = none;
  inherited = false;
}

abbrev day : Text → Option Text → ForecastDay ℕ
day date high = record {
  date = date;
  day_info = none;
  night_info = none;
  day_temperature = high;
  night_temperature = none;
  wind_direct = none;
  wind_power = none;
  precipitation = none;
  publish_time = none;
  day_weather_icon = none;
  night_weather_icon = none;
  day_wind_direct = none;
  day_wind_power = none;
  night_wind_direct = none;
  night_wind_power = none;
}

abbrev upstream : WeatherSnapshot ℕ
upstream = record {
  station = none;
  real = some (record no_observation { alerts = alert (text "rain") ∷ [] });
  predict = some (record {
    publish_time = none;
    days = day (text "2026-05-01") none ∷ (day (text "2026-05-02") (some (text "21")) ∷ []);
  });
  air = none;
  tempchart = [];
  passedchart = [];
  climate = none;
  radar = some (record {
    title = none;
    image_url = some (text "http://radar");
    page_url = some (text "http://page");
    image_resource_id = none;
  });
  stale = false;
  debug = none;
}

abbrev stored : StoredSnapshot ℕ
stored = record {
  date = text "2026-05-01";
  snapshot = record upstream {
    predict =
        some
          (record { publish_time = none; days = day (text "2026-05-01") (some (text "25")) ∷ [] });
  };
  fetched_at_unix_ms = 1000;
}

abbrev station : ProviderStation
station = record {
  provider_name = text "nmc";
  display_name = text "北京";
  provider_station_id = text "54511";
  provider_province_code = text "ABJ";
  province = text "北京市";
  city = text "北京";
  url = [];
  name = text "北京-北京市";
  unified_uuid = text "id";
}

-- The state counts the calls; the provider answers when it says so.
abbrev services : Result (WeatherFetch ℕ) AnyError → Services ℕ ℕ
services answer = record {
  config = λ s. base_config;
  now_unix_ms = λ s. 2000;
  date_for_tz = λ time zone. ok (text "2026-05-01");
  digest = λ bytes. bytes;
  provider_name = text "nmc";
  register = λ url s. (s + 1, some url);
  get_latest_snapshot = λ uuid s. (s + 1, some (ok (some stored)));
  put_history_snapshot = λ snapshot at s. (s + 1, some (ok tt));
  log_fetch = λ uuid endpoint fine message s. (s + 1, some (ok tt));
  get_provider_station_by_uuid = λ provider uuid s. (s + 1, some (ok (some station)));
  get_provider_station_by_name = λ provider name s. (s + 1, some (ok none));
  resolve_station_name_from_targeted_index = λ name s. (s + 1, some (ok station));
  weather = λ id debug s. (s + 1, some answer);
  fly = λ key s. (s + 1, some none);
}

abbrev offline : Services ℕ ℕ
offline = services (err (text "offline" ∷ []))

abbrev online : Services ℕ ℕ
online = services (ok (record { snapshot = upstream; warnings = [] }))

abbrev world : World ℕ ℕ
world = record { services = 0; published = [] }

abbrev asked : GetWeatherRequest
asked = record { unified_uuid = text "id"; refresh = false; include_debug = false }

handle_weather_request-Reported_example :
    ((true || asked.refresh) ≡ true)
      × Reported asked.unified_uuid world.published
          (handle_weather_request platform offline (ok asked) true world)
    ⊎ ((true || asked.refresh) ≡ false)
      × Silent world.published
          (handle_weather_request platform offline (ok asked) true world).0.published
handle_weather_request-Reported_example =
    handle_weather_request-Reported platform offline asked true world

merge_parent_alerts_lem_example :
    let out =
      alerts_of (merge_parent_alerts upstream (alert (text "rain") ∷ (alert (text "wind") ∷ []))) in
    (added : List WeatherAlert) × (out ≡ alert (text "rain") ∷ added)
    × (all (λ a. a.inherited) added ≡ true)
    × (all
          (λ a. any (λ current. same_alert current a) out)
          (alert (text "rain") ∷ (alert (text "wind") ∷ []))
        ≡ true)
    × (distinct (map alert_key (alerts_of upstream)) ≡ true → distinct (map alert_key out) ≡ true)
merge_parent_alerts_lem_example =
    merge_parent_alerts_lem upstream (alert (text "rain") ∷ (alert (text "wind") ∷ []))

cached_snapshot_is_fresh_iff_example :
    (cached_snapshot_is_fresh online.date_for_tz 1000 2000 60 (text "UTC") ≡ ok true)
    ↔ (2000 - 1000 < min (60 * 1000) i64_max)
      × ((date : Text) × (online.date_for_tz 1000 (text "UTC") ≡ ok date)
          × (online.date_for_tz 2000 (text "UTC") ≡ ok date))
cached_snapshot_is_fresh_iff_example =
    cached_snapshot_is_fresh_iff online.date_for_tz 1000 2000 60 (text "UTC")

merge_cached_daily_high_lem_example :
    Preserves platform upstream
      (merge_cached_daily_high platform upstream stored (text "2026-05-01"))
    × (stored.date ≢ text "2026-05-01"
        → merge_cached_daily_high platform upstream stored (text "2026-05-01") ≡ upstream)
merge_cached_daily_high_lem_example =
    merge_cached_daily_high_lem platform upstream stored (text "2026-05-01")

-- A refresh with the provider offline: its start, the log of the fetch, its stale end, and the snapshot.
offline_events :
    length (handle_weather_request platform offline (ok asked) true world).0.published ≡ 4
unfolding handle_weather_request get_weather_internal start started_weather guarded resolve_station
    station_weather queue_fetch run_flight complete prepare_snapshot_resources prepare_alerts
    fetch_weather_uncached failed_weather stale_weather apply_cached_municipality_air
    apply_parent_alerts municipality_air_parent_name strip_suffix short_region_name
    canonical_station_name parent_station_name normalize_station_name station_parts split join trim
    trim_end trim_start is_whitespace ◌>>=◌ ◌>>◌ ◌>>?◌ on_ok return await reads calls publish
offline_events = refl

filled_high :
    (merge_cached_daily_high platform upstream stored (text "2026-05-01")).predict
    ≡ some (record {
      publish_time = none;
      days =
          day (text "2026-05-01") (some (25 ∷ []))
          ∷ (day (text "2026-05-02") (some (text "21")) ∷ []);
    })
unfolding merge_cached_daily_high parse_full_date first_word before_whitespace trim_start
    is_whitespace snapshot_daily_high current_forecast_index parse_relative_date parse_temperature
    current_temperature_chart_index parse_usize trim trim_end trim_end_matches temperature_text
filled_high = refl
