-- ===== src/Engine/Weather/Unreported.antt =====
-- weather-core/engine/src/handlers/weather.rs: without a guard, a request reports no refresh.
use weather_app.Common.{Bool, false, Option, none, some, ◌≡◌, refl, Result, ok, err}
use weather_app.Common.Text.{Text}
use weather_app.Schema.Weather.{GetWeatherRequest, WeatherSnapshot}
use weather_app.Db.Catalog.{ProviderStation}
use weather_app.Engine.Events.{snapshot_event}
use weather_app.Engine.Task.{AnyError, World, Task, return, ◌>>=◌}
use weather_app.Engine.Weather.Temperatures.{Platform, StoredSnapshot}
use weather_app.Engine.Weather.Services.{Services}
use weather_app.Engine.Weather.Quiet.{
  Silent, Quiet, return-Quiet, await-Quiet, reads-Quiet, calls-Quiet, publish-Quiet, >>=-Quiet,
  >>-Quiet, >>?-Quiet, if_Quiet, apply_parent_alerts-Quiet, apply_cached_municipality_air-Quiet,
  fetch_weather_uncached-Quiet,
}
use weather_app.Engine.Weather.Request.{
  start, complete, dropped, guarded, or_index, station_by_name, station_of, or_configured,
  resolve_station, or_fetch, run_flight, prepared, queue_fetch, cached_weather, if_stored_fresh,
  station_weather, with_station, started_weather, get_weather_internal, respond,
}

module _ {F S : Type 0} where
  complete-none-Quiet : (o : _) → Quiet (complete {F = F} {S = S} none o)
  unfolding complete
  complete-none-Quiet o = return-Quiet tt

  dropped-Silent :
      {A : Type 0} (l : _) (out : World F S × Option A)
      → Silent {F = F} l out.0.published
      → Silent l (dropped none out).0.published
  unfolding complete return
  dropped-Silent l (w, none) h = h
  dropped-Silent l (w, some a) h = h

  guarded-Quiet : {A : Type 0} (t : Task F S A) → Quiet t → Quiet (guarded none t)
  unfolding guarded
  guarded-Quiet t h = record { silent = λ w. dropped-Silent w.published (t w) (h.silent w) }

module _ {F D S : Type 0} (p : Platform F D) (v : Services F S) where
  or_index-Quiet : (name : Text) (found : Option ProviderStation) → Quiet (or_index p v name found)
  or_index-Quiet name (some station) = return-Quiet _
  or_index-Quiet name none = await-Quiet _

  station_by_name-Quiet : (name : Text) → Quiet (station_by_name p v name)
  unfolding station_by_name
  station_by_name-Quiet name =
      >>?-Quiet _ _ (await-Quiet _)
        (λ found. >>?-Quiet _ _ (or_index-Quiet name found) (λ station. return-Quiet _))

  station_of-Quiet : (context : Text) (name : Option Text) → Quiet (station_of p v context name)
  station_of-Quiet context none = return-Quiet _
  station_of-Quiet context (some name) = station_by_name-Quiet name

  or_configured-Quiet :
      (uuid : Text) (found : Option ProviderStation) → Quiet (or_configured p v uuid found)
  or_configured-Quiet uuid (some station) = return-Quiet _
  or_configured-Quiet uuid none = >>=-Quiet _ _ (reads-Quiet _) (station_of-Quiet _)

  pub resolve_station-Quiet : (uuid : Text) → Quiet (resolve_station p v uuid)
  unfolding resolve_station
  resolve_station-Quiet uuid =
      if_Quiet _ _ _ (>>=-Quiet _ _ (reads-Quiet _) (station_of-Quiet _))
        (>>?-Quiet _ _ (await-Quiet _) (or_configured-Quiet uuid))

  or_fetch-Quiet :
      (station : ProviderStation) (debug : Bool) (flight : Option (Result (WeatherSnapshot F) Text))
      → Quiet (or_fetch p v station debug flight)
  or_fetch-Quiet station debug (some result) = return-Quiet _
  or_fetch-Quiet station debug none =
      >>=-Quiet _ _ (fetch_weather_uncached-Quiet p v station debug) (λ r. return-Quiet _)

  pub run_flight-Quiet :
      (station : ProviderStation) (debug : Bool) → Quiet (run_flight p v station debug)
  unfolding run_flight
  run_flight-Quiet station debug = >>=-Quiet _ _ (await-Quiet _) (or_fetch-Quiet station debug)

  pub prepared-Quiet : (r : Result (WeatherSnapshot F) AnyError) → Quiet (prepared p v r)
  prepared-Quiet (err e) = return-Quiet _
  prepared-Quiet (ok snapshot) = >>=-Quiet _ _ (calls-Quiet _) (λ s. return-Quiet _)

  queue_fetch-Quiet :
      (station : ProviderStation) (debug : Bool) → Quiet (queue_fetch p v none station debug)
  unfolding queue_fetch
  queue_fetch-Quiet station debug =
      >>=-Quiet _ _ (guarded-Quiet _ (run_flight-Quiet station debug))
        (λ r. >>-Quiet _ _ (complete-none-Quiet _) (prepared-Quiet r))

  cached_weather-Quiet :
      (station : ProviderStation) (stored : StoredSnapshot F)
      → Quiet (cached_weather p v station stored)
  unfolding cached_weather
  cached_weather-Quiet station stored =
      >>=-Quiet _ _ (apply_cached_municipality_air-Quiet p v _ station) (λ air.
        >>=-Quiet _ _ (apply_parent_alerts-Quiet p v _ station) (λ alerts. prepared-Quiet (ok _)))

  if_stored_fresh-Quiet :
      (station : ProviderStation) (stored : Option (StoredSnapshot F))
      (fetch : Task F S (Result (WeatherSnapshot F) AnyError))
      → Quiet fetch
      → Quiet (if_stored_fresh p v station stored fetch)
  if_stored_fresh-Quiet station none fetch h = h
  if_stored_fresh-Quiet station (some stored) fetch h =
      >>?-Quiet _ _ (reads-Quiet _)
        (λ fresh. if_Quiet fresh _ _ (cached_weather-Quiet station stored) h)

  station_weather-Quiet :
      (req : GetWeatherRequest) (station : ProviderStation)
      → Quiet (station_weather p v none req station)
  unfolding station_weather
  station_weather-Quiet req station =
      if_Quiet _ _ _
        (>>?-Quiet _ _ (await-Quiet _)
          (λ stored. if_stored_fresh-Quiet station stored _ (queue_fetch-Quiet station _)))
        (queue_fetch-Quiet station _)

  with_station-Quiet :
      (req : GetWeatherRequest) (resolved : Result ProviderStation AnyError)
      → Quiet (with_station p v none req resolved)
  with_station-Quiet req (err e) = >>-Quiet _ _ (complete-none-Quiet _) (return-Quiet _)
  with_station-Quiet req (ok station) = station_weather-Quiet req station

  started_weather-Quiet : (req : GetWeatherRequest) → Quiet (started_weather p v req none)
  unfolding started_weather
  started_weather-Quiet req =
      >>=-Quiet _ _ (guarded-Quiet _ (resolve_station-Quiet req.unified_uuid))
        (with_station-Quiet req)

  pub get_weather_internal-Quiet :
      (req : GetWeatherRequest) → req.refresh ≡ false → Quiet (get_weather_internal p v req)
  unfolding get_weather_internal start ◌>>=◌ return
  get_weather_internal-Quiet req off = record {
    silent = λ w.
        rw (off, get_weather_internal)
          ((started_weather-Quiet (record req { refresh = false })).silent w);
  }

  pub respond-Quiet : (r : Result (WeatherSnapshot F) AnyError) → Quiet (respond p v r)
  unfolding snapshot_event
  respond-Quiet (err e) = return-Quiet _
  respond-Quiet (ok snapshot) = >>-Quiet _ _ (publish-Quiet _ refl) (return-Quiet _)
