-- ===== src/Engine/Weather/Request.antt =====
-- weather-core/engine/src/handlers/weather.rs: from a request to its response, with the guard that
-- reports the end of a refresh.
use weather_app.Common.{
  Bool, true, not, ◌&&◌, List, [], ◌∷◌, Option, none, some, ℕ, if◌then◌else◌, ◌==◌, list_eq, nat_eq,
  Result, ok, err,
}
use weather_app.Common.Text.{Text, text, trim, is_empty}
use weather_app.Schema.Weather.{
  GetWeatherRequest, WeatherSnapshot, WeatherAlert, RadarInfo, ObservedWeather,
}
use weather_app.Schema.Uuid.{unified_station_uuid}
use weather_app.Config.{StationConfig}
use weather_app.Db.Catalog.{ProviderStation}
use weather_app.Engine.Events.{RefreshTerminal, refresh_started, refresh_terminal, snapshot_event}
use weather_app.Engine.Weather.Fetch.{
  merged, kept, fresh_in, fetch_weather_uncached, apply_cached_municipality_air,
  apply_parent_alerts,
}
use weather_app.Engine.Task.{
  AnyError, World, Task, return, await, reads, calls, publish, full_text, outer_text, ◌>>=◌, ◌>>◌,
  ◌>>?◌,
}
use weather_app.Engine.Weather.Merging.{first_enabled_station_name}
use weather_app.Engine.Weather.Temperatures.{Platform, StoredSnapshot}
use weather_app.Engine.Weather.Services.{Services}

-- The guard while it is armed.
pub record RefreshCompletionGuard : Type 0 where
  pub unified_uuid : Option Text

pub data Response (F : Type 0) : Type 0 where
  bad_request : Text → Response F
  weather_error : Text → Response F
  snapshot_response : WeatherSnapshot F → Response F

abbrev pub unless_blank : Text → Option Text
unless_blank requested_uuid = if is_empty (trim requested_uuid) then none else some requested_uuid

abbrev pub identified : Text → ProviderStation → ProviderStation
identified uuid station = record station { unified_uuid = uuid }

unfoldable pub find_station : (List ℕ → List ℕ) → Text → List StationConfig → Option StationConfig
find_station digest unified_uuid [] = none
find_station digest unified_uuid (station ∷ stations) =
    if unified_station_uuid digest station.name == unified_uuid
    then some station
    else find_station digest unified_uuid stations

abbrev pub set_unified_uuid : Text → Option RefreshCompletionGuard → Option RefreshCompletionGuard
set_unified_uuid uuid none = none
set_unified_uuid uuid (some guard) = some (record { unified_uuid = some uuid })

abbrev pub cancelled : RefreshTerminal
cancelled = RefreshTerminal.failure (text "refresh cancelled before completion")

abbrev pub outcome_of : {F : Type 0} → Result (WeatherSnapshot F) AnyError → RefreshTerminal
outcome_of (ok snapshot) = if snapshot.stale then RefreshTerminal.stale else RefreshTerminal.success
outcome_of (err e) = RefreshTerminal.failure (full_text e)

abbrev pub shared_error :
    {F : Type 0} → Result (WeatherSnapshot F) Text → Result (WeatherSnapshot F) AnyError
shared_error (ok snapshot) = ok snapshot
shared_error (err message) = err (message ∷ [])

abbrev pub shared :
    {F : Type 0} → Result (WeatherSnapshot F) AnyError → Result (WeatherSnapshot F) AnyError
shared (ok snapshot) = ok snapshot
shared (err e) = err (full_text e ∷ [])

module _ {F S : Type 0} where
  unfoldable pub start : Bool → Text → Task F S (Option RefreshCompletionGuard)
  start refresh requested_uuid =
      if refresh
      then (publish (refresh_started (unless_blank requested_uuid))
          >> return (some (record { unified_uuid = unless_blank requested_uuid })))
      else return none

  unfoldable pub complete : Option RefreshCompletionGuard → RefreshTerminal → Task F S (Unit {0})
  complete none outcome = return tt
  complete (some guard) outcome = publish (refresh_terminal guard.unified_uuid outcome)

  -- A part of the task in which the guard is armed: where the task is dropped, so is the guard.
  abbrev pub dropped :
      {A : Type 0} → Option RefreshCompletionGuard → World F S × Option A → World F S × Option A
  dropped guard (w, some a) = (w, some a)
  dropped guard (w, none) = ((complete guard cancelled w).0, none)

  unfoldable pub guarded : {A : Type 0} → Option RefreshCompletionGuard → Task F S A → Task F S A
  guarded guard task w = dropped guard (task w)

module _ {F D S : Type 0} (p : Platform F D) (v : Services F S) where
  abbrev pub or_index : Text → Option ProviderStation → Task F S (Result ProviderStation AnyError)
  or_index name (some station) = return (ok station)
  or_index name none = await (v.resolve_station_name_from_targeted_index name)

  unfoldable pub station_by_name : Text → Task F S (Result ProviderStation AnyError)
  station_by_name name = await (v.get_provider_station_by_name v.provider_name name) >>? λ found.
      or_index name found >>? λ station.
      return
        (ok (record station { name = name; unified_uuid = unified_station_uuid v.digest name }))

  abbrev pub station_of : Text → Option Text → Task F S (Result ProviderStation AnyError)
  station_of context none = return (err (context ∷ []))
  station_of context (some name) = station_by_name name

  abbrev pub default_station : Task F S (Result ProviderStation AnyError)
  default_station = do
    name ← reads (λ s. first_enabled_station_name (v.config s).stations)
    station_of (text "no enabled station is configured for the default weather request") name

  abbrev pub configured_name : Text → S → Option Text
  configured_name unified_uuid s = elim (find_station v.digest unified_uuid (v.config s).stations) [
    | none ↦ none
    | some station ↦ some station.name
  ]

  abbrev pub not_found : Text
  not_found =
      text "station not found for unified_uuid; call FUZZY_MATCH_STATIONS first to populate DB"

  abbrev pub or_configured :
      Text → Option ProviderStation → Task F S (Result ProviderStation AnyError)
  or_configured unified_uuid (some station) = return (ok station)
  or_configured unified_uuid none = do
    name ← reads (configured_name unified_uuid)
    station_of not_found name

  unfoldable pub resolve_station : Text → Task F S (Result ProviderStation AnyError)
  resolve_station unified_uuid =
      if is_empty (trim unified_uuid)
      then default_station
      else (await (v.get_provider_station_by_uuid v.provider_name unified_uuid)
          >>? or_configured unified_uuid)

  abbrev pub prepare_radar : Option RadarInfo → S → S × Option RadarInfo
  prepare_radar none s = (s, none)
  prepare_radar (some radar) s = elim radar.image_url [
    | none ↦ (s, some (record radar { page_url = none }))
    | some image_url ↦
        let (s', id) = v.register image_url s in
        (s', some (record radar { image_url = none; page_url = none; image_resource_id = id }))
  ]

  abbrev pub prepare_alert : WeatherAlert → S → S × WeatherAlert
  prepare_alert alert s = elim alert.icon_url [
    | none ↦ (s, record alert { url = none })
    | some icon_url ↦
        let (s', id) = v.register icon_url s in
        (s', record alert { icon_url = none; url = none; icon_resource_id = id })
  ]

  unfoldable pub prepare_alerts : List WeatherAlert → S → S × List WeatherAlert
  prepare_alerts [] s = (s, [])
  prepare_alerts (alert ∷ alerts) s =
      let (s', first) = prepare_alert alert s in
      let (s'', rest) = prepare_alerts alerts s' in (s'', first ∷ rest)

  abbrev pub prepare_real : Option (ObservedWeather F) → S → S × Option (ObservedWeather F)
  prepare_real none s = (s, none)
  prepare_real (some real) s =
      let (s', alerts) = prepare_alerts real.alerts s in
      (s', some (record real { alerts = alerts }))

  unfoldable pub prepare_snapshot_resources : WeatherSnapshot F → S → S × WeatherSnapshot F
  prepare_snapshot_resources snapshot s =
      let (s', radar) = prepare_radar snapshot.radar s in
      let (s'', real) = prepare_real snapshot.real s' in
      (s'', record snapshot { radar = radar; real = real })

  abbrev pub or_fetch :
      ProviderStation
      → Bool
      → Option (Result (WeatherSnapshot F) Text)
      → Task F S (Result (WeatherSnapshot F) AnyError)
  or_fetch station include_debug (some result) = return (shared_error result)
  or_fetch station include_debug none = do
    result ← fetch_weather_uncached p v station include_debug
    return (shared result)

  -- The flight of the station's key: its result, or the fetch of this call.
  unfoldable pub run_flight :
      ProviderStation → Bool → Task F S (Result (WeatherSnapshot F) AnyError)
  run_flight station include_debug = do
    flight ← await (v.fly (station.unified_uuid, include_debug))
    or_fetch station include_debug flight

  abbrev pub prepared :
      Result (WeatherSnapshot F) AnyError → Task F S (Result (WeatherSnapshot F) AnyError)
  prepared (err e) = return (err e)
  prepared (ok snapshot) = do
    snapshot' ← calls (prepare_snapshot_resources snapshot)
    return (ok snapshot')

  unfoldable pub queue_fetch :
      Option RefreshCompletionGuard
      → ProviderStation
      → Bool
      → Task F S (Result (WeatherSnapshot F) AnyError)
  queue_fetch completion station include_debug = do
    result ← guarded completion (run_flight station include_debug)
    complete completion (outcome_of result)
    prepared result

  -- A stored snapshot that is fresh.
  unfoldable pub cached_weather :
      ProviderStation → StoredSnapshot F → Task F S (Result (WeatherSnapshot F) AnyError)
  cached_weather station stored = do
    let snapshot = merged p v station stored.snapshot
    air ← apply_cached_municipality_air p v snapshot station
    alerts ← apply_parent_alerts p v (kept air snapshot) station
    prepared (ok (kept alerts (kept air snapshot)))

  abbrev pub if_stored_fresh :
      ProviderStation
      → Option (StoredSnapshot F)
      → Task F S (Result (WeatherSnapshot F) AnyError)
      → Task F S (Result (WeatherSnapshot F) AnyError)
  if_stored_fresh station none fetch = fetch
  if_stored_fresh station (some stored) fetch = reads (fresh_in p v stored) >>? λ fresh.
      if fresh then cached_weather station stored else fetch

  -- From the station on; the guard is there only for a refresh, which passes the cache by.
  unfoldable pub station_weather :
      Option RefreshCompletionGuard
      → GetWeatherRequest
      → ProviderStation
      → Task F S (Result (WeatherSnapshot F) AnyError)
  station_weather completion req station =
      if not req.refresh && not req.include_debug
      then (await (v.get_latest_snapshot station.unified_uuid) >>? λ stored.
          if_stored_fresh station stored (queue_fetch completion station req.include_debug))
      else queue_fetch completion station req.include_debug

  abbrev pub with_station :
      Option RefreshCompletionGuard
      → GetWeatherRequest
      → Result ProviderStation AnyError
      → Task F S (Result (WeatherSnapshot F) AnyError)
  with_station completion req (err e) = do
    complete completion (RefreshTerminal.failure (full_text e))
    return (err e)
  with_station completion req (ok station) =
      station_weather (set_unified_uuid station.unified_uuid completion) req station

  unfoldable pub started_weather :
      GetWeatherRequest
      → Option RefreshCompletionGuard
      → Task F S (Result (WeatherSnapshot F) AnyError)
  started_weather req completion = do
    resolved ← guarded completion (resolve_station req.unified_uuid)
    with_station completion req resolved

  unfoldable pub get_weather_internal :
      GetWeatherRequest → Task F S (Result (WeatherSnapshot F) AnyError)
  get_weather_internal req = do
    completion ← start req.refresh req.unified_uuid
    started_weather req completion

  abbrev pub respond : Result (WeatherSnapshot F) AnyError → Task F S (Response F)
  respond (err e) = return (weather_error (outer_text e))
  respond (ok snapshot) = do publish (snapshot_event snapshot); return (snapshot_response snapshot)

  -- The request is given as the result of its decoding; a forced refresh is TRIGGER_REFRESH.
  unfoldable pub handle_weather_request :
      Result GetWeatherRequest Text → Bool → Task F S (Response F)
  handle_weather_request (err e) force_refresh = return (bad_request e)
  handle_weather_request (ok req) force_refresh = do
    snapshot ← get_weather_internal (if force_refresh then record req { refresh = true } else req)
    respond snapshot
