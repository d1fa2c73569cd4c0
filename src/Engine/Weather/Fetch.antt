-- ===== src/Engine/Weather/Fetch.antt =====
-- weather-core/engine/src/handlers/weather.rs: a fetch from the provider, what it takes over from
-- stored snapshots, and the stored snapshot that serves where the provider fails.
use weather_app.Common.{
  Bool, true, false, List, [], ◌∷◌, ◌++◌, Option, none, some, if◌then◌else◌, is_some, Result, ok,
  err,
}
use weather_app.Common.Text.{Text, text}
use weather_app.Schema.Weather.{WeatherSnapshot, WeatherAlert}
use weather_app.Schema.Station.{parent_station_name}
use weather_app.Schema.Uuid.{unified_station_uuid}
use weather_app.Db.Catalog.{ProviderStation}
use weather_app.Engine.Events.{fetch_log, fetch_log_event}
use weather_app.Engine.Station.{merge_station}
use weather_app.Engine.Task.{
  AnyError, Task, return, await, reads, publish, full_text, ◌>>=◌, ◌>>◌, ◌>>?◌,
}
use weather_app.Engine.Weather.Merging.{
  merge_parent_alerts, municipality_air_parent_name, warning_summary, cached_snapshot_is_fresh,
}
use weather_app.Engine.Weather.Temperatures.{Platform, StoredSnapshot, merge_cached_daily_high}
use weather_app.Engine.Weather.Services.{Services, WeatherFetch}

abbrev pub endpoint : Text
endpoint = text "rest/weather"

-- The snapshot after an update that may fail, which leaves it as it was.
abbrev pub kept :
    {F : Type 0} → Result (WeatherSnapshot F) AnyError → WeatherSnapshot F → WeatherSnapshot F
kept (ok updated) snapshot = updated
kept (err e) snapshot = snapshot

-- The warning of a failure.
abbrev pub warn {ℓ} : {A : Type ℓ} → Text → Result A AnyError → List Text
warn context (ok a) = []
warn context (err e) = (context ++ full_text e) ∷ []

abbrev pub if_fresh :
    {F : Type 0}
    → Result Bool AnyError
    → WeatherSnapshot F
    → WeatherSnapshot F
    → Result (WeatherSnapshot F) AnyError
if_fresh (err e) updated snapshot = err e
if_fresh (ok fresh) updated snapshot = ok (if fresh then updated else snapshot)

abbrev pub warn_debug : {F : Type 0} → List Text → WeatherSnapshot F → WeatherSnapshot F
warn_debug warnings snapshot = record snapshot {
  debug = elim snapshot.debug [
    | none ↦ none
    | some payload ↦ some (record payload { warnings = warnings })
  ];
}

abbrev pub take_air : {F : Type 0} → StoredSnapshot F → WeatherSnapshot F → WeatherSnapshot F
take_air stored snapshot = elim stored.snapshot.air [
  | none ↦ snapshot
  | some air ↦ record snapshot { air = some air }
]

abbrev pub stored_alerts : {F : Type 0} → StoredSnapshot F → List WeatherAlert
stored_alerts stored = elim stored.snapshot.real [ none ↦ [] | some real ↦ real.alerts ]

module _ {F D S : Type 0} (p : Platform F D) (v : Services F S) where
  abbrev pub merged : ProviderStation → WeatherSnapshot F → WeatherSnapshot F
  merged station snapshot = record snapshot {
    station = some (merge_station v.digest snapshot.station station);
  }

  unfoldable pub fresh_in : StoredSnapshot F → S → Result Bool AnyError
  fresh_in stored s =
      let config = v.config s in
      cached_snapshot_is_fresh v.date_for_tz stored.fetched_at_unix_ms (v.now_unix_ms s)
        config.updater.weather_ttl_seconds config.db.timezone

  -- An update from a stored snapshot, if there is one and it is fresh.
  abbrev pub from_fresh :
      (StoredSnapshot F → WeatherSnapshot F)
      → WeatherSnapshot F
      → Option (StoredSnapshot F)
      → Task F S (Result (WeatherSnapshot F) AnyError)
  from_fresh update snapshot none = return (ok snapshot)
  from_fresh update snapshot (some stored) = do
    fresh ← reads (fresh_in stored)
    return (if_fresh fresh (update stored) snapshot)

  -- The same from the stored snapshot of a station, if there is such a station.
  abbrev pub from_station :
      (StoredSnapshot F → WeatherSnapshot F)
      → WeatherSnapshot F
      → Option Text
      → Task F S (Result (WeatherSnapshot F) AnyError)
  from_station update snapshot none = return (ok snapshot)
  from_station update snapshot (some name) =
      await (v.get_latest_snapshot (unified_station_uuid v.digest name))
      >>? from_fresh update snapshot

  unfoldable pub apply_parent_alerts :
      WeatherSnapshot F → ProviderStation → Task F S (Result (WeatherSnapshot F) AnyError)
  apply_parent_alerts snapshot station =
      from_station (λ stored. merge_parent_alerts snapshot (stored_alerts stored)) snapshot
        (parent_station_name station.name)

  unfoldable pub apply_cached_municipality_air :
      WeatherSnapshot F → ProviderStation → Task F S (Result (WeatherSnapshot F) AnyError)
  apply_cached_municipality_air snapshot station =
      if is_some snapshot.air
      then return (ok snapshot)
      else from_station (λ stored. take_air stored snapshot) snapshot
          (municipality_air_parent_name station.province station.city)

  abbrev pub high_from : WeatherSnapshot F → Text → Option (StoredSnapshot F) → WeatherSnapshot F
  high_from snapshot today none = snapshot
  high_from snapshot today (some stored) = merge_cached_daily_high p snapshot stored today

  unfoldable pub apply_cached_daily_high :
      WeatherSnapshot F → ProviderStation → Task F S (Result (WeatherSnapshot F) AnyError)
  apply_cached_daily_high snapshot station =
      reads (λ s. v.date_for_tz (v.now_unix_ms s) (v.config s).db.timezone) >>? λ today.
      await (v.get_latest_snapshot station.unified_uuid) >>? λ stored.
      return (ok (high_from snapshot today stored))

  unfoldable pub persist_snapshot : WeatherSnapshot F → Task F S (Result (Unit {0}) AnyError)
  persist_snapshot snapshot = do
    fetched_at_unix_ms ← reads v.now_unix_ms
    await (v.put_history_snapshot snapshot fetched_at_unix_ms)

  -- After an answer of the provider.
  unfoldable pub fetched_weather :
      ProviderStation → WeatherFetch F → Task F S (Result (WeatherSnapshot F) AnyError)
  fetched_weather station fetch = do
    let snapshot = merged station fetch.snapshot
    high ← apply_cached_daily_high snapshot station
    let snapshot' = kept high snapshot
    stored ← persist_snapshot (record snapshot' { debug = none })
    air ← apply_cached_municipality_air snapshot' station
    alerts ← apply_parent_alerts (kept air snapshot') station
    let warnings =
        fetch.warnings
        ++ (warn (text "daily high fallback failed: ") high
            ++ (warn (text "cache write failed: ") stored
                ++ warn (text "municipality air fallback failed: ") air))
    logged ←
        await (v.log_fetch (some station.unified_uuid) endpoint true (warning_summary warnings))
    let warnings' = warnings ++ warn (text "fetch log write failed: ") logged
    publish (
        fetch_log
          (fetch_log_event (some station.unified_uuid) endpoint true (warning_summary warnings')))
    return (ok (warn_debug warnings' (kept alerts (kept air snapshot'))))

  abbrev pub failure_message : AnyError → Result (Unit {0}) AnyError → Text
  failure_message e (ok u) = full_text e
  failure_message e (err log_error) =
      full_text e ++ (text "; fetch log write failed: " ++ full_text log_error)

  abbrev pub stale_of : ProviderStation → StoredSnapshot F → WeatherSnapshot F
  stale_of station stored = record (merged station stored.snapshot) { stale = true }

  -- What is stored, as a stale snapshot.
  unfoldable pub stale_weather :
      ProviderStation
      → AnyError
      → Result (Option (StoredSnapshot F)) AnyError
      → Task F S (Result (WeatherSnapshot F) AnyError)
  stale_weather station e (ok (some stored)) = do
    let snapshot = stale_of station stored
    air ← apply_cached_municipality_air snapshot station
    alerts ← apply_parent_alerts (kept air snapshot) station
    return (ok (kept alerts (kept air snapshot)))
  stale_weather station e (ok none) = return (err e)
  stale_weather station e (err cache_error) =
      return (err ((text "stale cache lookup failed: " ++ full_text cache_error) ∷ e))

  -- After a failure of the provider.
  unfoldable pub failed_weather :
      ProviderStation → AnyError → Task F S (Result (WeatherSnapshot F) AnyError)
  failed_weather station e = do
    logged ← await (v.log_fetch (some station.unified_uuid) endpoint false (some (full_text e)))
    publish (
        fetch_log (
          fetch_log_event (some station.unified_uuid) endpoint false
            (some (failure_message e logged))))
    stored ← await (v.get_latest_snapshot station.unified_uuid)
    stale_weather station e stored

  abbrev pub after_fetch :
      ProviderStation
      → Result (WeatherFetch F) AnyError
      → Task F S (Result (WeatherSnapshot F) AnyError)
  after_fetch station (ok fetch) = fetched_weather station fetch
  after_fetch station (err e) = failed_weather station e

  unfoldable pub fetch_weather_uncached :
      ProviderStation → Bool → Task F S (Result (WeatherSnapshot F) AnyError)
  fetch_weather_uncached station include_debug = do
    fetched ← await (v.weather station.provider_station_id include_debug)
    after_fetch station fetched
