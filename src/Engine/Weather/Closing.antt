-- ===== src/Engine/Weather/Closing.antt =====
-- weather-core/engine/src/handlers/weather.rs: a refresh that has started reports one end.
use weather_app.Common.{
  Bool, true, List, [], ◌∷◌, ◌++◌, Option, none, some, ◌≡◌, refl, Result, ok, err,
}
use weather_app.Common.Text.{Text}
use weather_app.Schema.Weather.{GetWeatherRequest, WeatherSnapshot}
use weather_app.Db.Catalog.{ProviderStation}
use weather_app.Engine.Events.{Event, RefreshTerminal, refresh_started, refresh_terminal}
use weather_app.Engine.Task.{
  AnyError, World, return, calls, publish, continue, full_text, ◌>>=◌, ◌>>◌,
}
use weather_app.Engine.Weather.Temperatures.{Platform}
use weather_app.Engine.Weather.Services.{Services}
use weather_app.Engine.Weather.Quiet.{Silent, Silent-refl, Silent-trans}
use weather_app.Engine.Weather.Unreported.{resolve_station-Quiet, run_flight-Quiet, prepared-Quiet}
use weather_app.Engine.Weather.Request.{
  RefreshCompletionGuard, unless_blank, start, complete, dropped, guarded, cancelled, outcome_of,
  prepared, queue_fetch, station_weather, with_station, started_weather, get_weather_internal,
  resolve_station, run_flight, prepare_snapshot_resources,
}

-- The end that is reported for a result; a task that is dropped has none.
abbrev pub Ends :
    {F : Type 0} → Option (Result (WeatherSnapshot F) AnyError) → RefreshTerminal → Type 0
Ends none outcome = outcome ≡ cancelled
Ends (some r) outcome = outcome ≡ outcome_of r

-- One end of a refresh is reported, and nothing else of it.
pub record Closing {F S : Type 0} (before : List (Event F))
    (out : World F S × Option (Result (WeatherSnapshot F) AnyError)) : Type 0 where
  pub uuid : Option Text
  pub outcome : RefreshTerminal
  pub until : List (Event F)
  pub quiet_before : Silent before until
  pub quiet_after : Silent (until ++ refresh_terminal uuid outcome ∷ []) out.0.published
  pub ends : Ends out.1 outcome

module _ {F D S : Type 0} (p : Platform F D) (v : Services F S) where
  -- A snapshot is as stale after its preparation as before.
  prepared-Ends :
      (r : Result (WeatherSnapshot F) AnyError) (w : World F S)
      → Ends (prepared p v r w).1 (outcome_of r)
  unfolding return calls ◌>>=◌ prepare_snapshot_resources
  prepared-Ends (err e) w = refl
  prepared-Ends (ok snapshot) w = refl

  queued-Closing :
      (guard : RefreshCompletionGuard) (before : List (Event F))
      (out : World F S × Option (Result (WeatherSnapshot F) AnyError))
      → Silent before out.0.published
      → Closing before (
          continue
            (dropped (some guard) out)
            (λ r. complete (some guard) (outcome_of r) >> prepared p v r))
  unfolding complete publish return ◌>>=◌ ◌>>◌
  queued-Closing guard before (w, none) h = record {
    uuid = guard.unified_uuid;
    outcome = cancelled;
    until = w.published;
    quiet_before = h;
    quiet_after = Silent-refl _;
    ends = refl;
  }
  queued-Closing guard before (w, some r) h = record {
    uuid = guard.unified_uuid;
    outcome = outcome_of r;
    until = w.published;
    quiet_before = h;
    quiet_after = (prepared-Quiet p v r).silent _;
    ends = prepared-Ends r _;
  }

  queue_fetch-Closing :
      (guard : RefreshCompletionGuard) (station : ProviderStation) (debug : Bool) (w : World F S)
      → Closing w.published (queue_fetch p v (some guard) station debug w)
  unfolding queue_fetch ◌>>=◌ guarded
  queue_fetch-Closing guard station debug w =
      queued-Closing guard w.published (run_flight p v station debug w)
        ((run_flight-Quiet p v station debug).silent w)

  -- A refresh passes the cache by.
  station_weather-Closing :
      (guard : RefreshCompletionGuard) (req : GetWeatherRequest) (station : ProviderStation)
      (w : World F S)
      → req.refresh ≡ true
      → Closing w.published (station_weather p v (some guard) req station w)
  unfolding station_weather
  station_weather-Closing guard req station w on =
      rw (on, station_weather) (queue_fetch-Closing guard station req.include_debug w)

  with_station-Closing :
      (guard : RefreshCompletionGuard) (req : GetWeatherRequest)
      (resolved : Result ProviderStation AnyError) (w : World F S)
      → req.refresh ≡ true
      → Closing w.published (with_station p v (some guard) req resolved w)
  unfolding complete publish return ◌>>=◌ ◌>>◌
  with_station-Closing guard req (err e) w on = record {
    uuid = guard.unified_uuid;
    outcome = RefreshTerminal.failure (full_text e);
    until = w.published;
    quiet_before = Silent-refl w.published;
    quiet_after = Silent-refl _;
    ends = refl;
  }
  with_station-Closing guard req (ok station) w on =
      station_weather-Closing (record { unified_uuid = some station.unified_uuid }) req station w on

  resolved-Closing :
      (guard : RefreshCompletionGuard) (req : GetWeatherRequest) (before : List (Event F))
      (out : World F S × Option (Result ProviderStation AnyError))
      → req.refresh ≡ true
      → Silent before out.0.published
      → Closing before (continue (dropped (some guard) out) (with_station p v (some guard) req))
  unfolding complete publish
  resolved-Closing guard req before (w, none) on h = record {
    uuid = guard.unified_uuid;
    outcome = cancelled;
    until = w.published;
    quiet_before = h;
    quiet_after = Silent-refl _;
    ends = refl;
  }
  resolved-Closing guard req before (w, some resolved) on h =
      let c = with_station-Closing guard req resolved w on in
      record {
        uuid = c.uuid;
        outcome = c.outcome;
        until = c.until;
        quiet_before = Silent-trans before w.published c.until h c.quiet_before;
        quiet_after = c.quiet_after;
        ends = c.ends;
      }

  started_weather-Closing :
      (guard : RefreshCompletionGuard) (req : GetWeatherRequest) (w : World F S)
      → req.refresh ≡ true
      → Closing w.published (started_weather p v req (some guard) w)
  unfolding started_weather ◌>>=◌ guarded
  started_weather-Closing guard req w on =
      resolved-Closing guard req w.published (resolve_station p v req.unified_uuid w) on
        ((resolve_station-Quiet p v req.unified_uuid).silent w)

  pub internal-Closing :
      (req : GetWeatherRequest) (w : World F S)
      → req.refresh ≡ true
      → Closing
          (w.published ++ refresh_started (unless_blank req.unified_uuid) ∷ [])
          (get_weather_internal p v req w)
  unfolding get_weather_internal start ◌>>=◌ ◌>>◌ return publish
  internal-Closing req w on =
      let w' = record w {
        published = w.published ++ refresh_started (unless_blank req.unified_uuid) ∷ [];
      } in
      rw (on, get_weather_internal)
        (started_weather-Closing (record { unified_uuid = unless_blank req.unified_uuid })
          (record req { refresh = true }) w' refl)
