-- ===== src/Engine/Weather/Quiet.antt =====
-- weather-core/engine/src/handlers/weather.rs: the parts of a request that report no refresh.
use weather_app.Common.{
  Bool, true, false, not, List, [], ◌∷◌, ◌++◌, Option, none, some, ◌≡◌, refl, sym, ap, ◌∙◌, arith,
  all, all-append, if◌then◌else◌, Result, ok, err,
}
use mathlib.Core.List.{append-nil, append_assoc}
use weather_app.Common.Text.{Text}
use weather_app.Schema.Weather.{WeatherSnapshot}
use weather_app.Db.Catalog.{ProviderStation}
use weather_app.Engine.Events.{Event, weather_snapshot, fetch_log, refresh}
use weather_app.Engine.Task.{
  AnyError, World, Task, Await, return, await, reads, calls, publish, on_ok, continue, ◌>>=◌, ◌>>◌,
  ◌>>?◌,
}
use weather_app.Engine.Weather.Temperatures.{Platform, StoredSnapshot}
use weather_app.Engine.Weather.Services.{Services, WeatherFetch}
use weather_app.Engine.Weather.Fetch.{
  from_fresh, from_station, apply_parent_alerts, apply_cached_municipality_air,
  apply_cached_daily_high, persist_snapshot, fetched_weather, failed_weather, stale_weather,
  after_fetch, fetch_weather_uncached,
}

abbrev pub is_refresh : {F : Type 0} → Event F → Bool
is_refresh (weather_snapshot s) = false
is_refresh (fetch_log e) = false
is_refresh (refresh e) = true

-- Some events were published between two lists of events, none of them of a refresh.
pub record Silent {F : Type 0} (before after : List (Event F)) : Type 0 where
  pub events : List (Event F)
  pub added : after ≡ before ++ events
  pub no_refresh : all (λ e. not (is_refresh e)) events ≡ true

pub Silent-refl : {F : Type 0} (l : List (Event F)) → Silent l l
Silent-refl l = record { events = []; added = sym (append-nil l); no_refresh = refl }

pub Silent-trans : {F : Type 0} (k l m : List (Event F)) → Silent k l → Silent l m → Silent k m
Silent-trans k l m a b = record {
  events = a.events ++ b.events;
  added = b.added ∙ ap (λ x. x ++ b.events) a.added ∙ append_assoc k a.events b.events;
  no_refresh = all-append (λ e. not (is_refresh e)) a.events b.events a.no_refresh b.no_refresh;
}

module _ {F S : Type 0} where
  -- Whatever becomes of the task, it reports no refresh.
  pub record Quiet {A : Type 0} (t : Task F S A) : Type 0 where
    pub silent : (w : World F S) → Silent w.published (t w).0.published

  pub return-Quiet : {A : Type 0} (a : A) → Quiet (return a)
  unfolding return
  return-Quiet a = record { silent = λ w. Silent-refl w.published }

  pub await-Quiet : {A : Type 0} (call : Await S A) → Quiet (await call)
  unfolding await
  await-Quiet call = record { silent = λ w. Silent-refl w.published }

  pub reads-Quiet : {A : Type 0} (f : S → A) → Quiet (reads f)
  unfolding reads
  reads-Quiet f = record { silent = λ w. Silent-refl w.published }

  pub calls-Quiet : {A : Type 0} (f : S → S × A) → Quiet (calls f)
  unfolding calls
  calls-Quiet f = record { silent = λ w. Silent-refl w.published }

  pub publish-Quiet : (e : Event F) → is_refresh e ≡ false → Quiet (publish {S = S} e)
  unfolding publish
  publish-Quiet e h = record {
    silent = λ w. record { events = e ∷ []; added = refl; no_refresh = ground (arith, h) };
  }

  continue-Silent :
      {A B : Type 0} (before : List (Event F)) (r : World F S × Option A) (f : A → Task F S B)
      → Silent before r.0.published
      → ((a : A) → Quiet (f a))
      → Silent before (continue r f).0.published
  continue-Silent before (w, none) f h q = h
  continue-Silent before (w, some a) f h q =
      Silent-trans before w.published (f a w).0.published h ((q a).silent w)

  pub >>=-Quiet :
      {A B : Type 0} (m : Task F S A) (f : A → Task F S B)
      → Quiet m
      → ((a : A) → Quiet (f a))
      → Quiet (m >>= f)
  unfolding ◌>>=◌
  >>=-Quiet m f h q = record { silent = λ w. continue-Silent w.published (m w) f (h.silent w) q }

  pub >>-Quiet :
      {A B : Type 0} (m : Task F S A) (t : Task F S B) → Quiet m → Quiet t → Quiet (m >> t)
  unfolding ◌>>◌
  >>-Quiet m t h k = >>=-Quiet m (λ _. t) h (λ _. k)

  on_ok-Quiet :
      {A B : Type 0} (f : A → Task F S (Result B AnyError)) (r : Result A AnyError)
      → ((a : A) → Quiet (f a))
      → Quiet (on_ok f r)
  unfolding on_ok
  on_ok-Quiet f (ok a) q = q a
  on_ok-Quiet f (err e) q = record { silent = λ w. Silent-refl w.published }

  pub >>?-Quiet :
      {A B : Type 0} (m : Task F S (Result A AnyError)) (f : A → Task F S (Result B AnyError))
      → Quiet m
      → ((a : A) → Quiet (f a))
      → Quiet (m >>? f)
  unfolding ◌>>?◌
  >>?-Quiet m f h q = >>=-Quiet m (on_ok f) h (λ r. on_ok-Quiet f r q)

  pub if_Quiet :
      {A : Type 0} (b : Bool) (s t : Task F S A) → Quiet s → Quiet t → Quiet (if b then s else t)
  if_Quiet true s t h k = h
  if_Quiet false s t h k = k

module _ {F D S : Type 0} (p : Platform F D) (v : Services F S) where
  from_fresh-Quiet :
      (update : StoredSnapshot F → WeatherSnapshot F) (snapshot : WeatherSnapshot F)
      (stored : Option (StoredSnapshot F))
      → Quiet (from_fresh p v update snapshot stored)
  from_fresh-Quiet update snapshot none = return-Quiet (ok snapshot)
  from_fresh-Quiet update snapshot (some stored) =
      >>=-Quiet (reads _) _ (reads-Quiet _) (λ fresh. return-Quiet _)

  from_station-Quiet :
      (update : StoredSnapshot F → WeatherSnapshot F) (snapshot : WeatherSnapshot F)
      (name : Option Text)
      → Quiet (from_station p v update snapshot name)
  from_station-Quiet update snapshot none = return-Quiet (ok snapshot)
  from_station-Quiet update snapshot (some name) =
      >>?-Quiet (await _) _ (await-Quiet _) (from_fresh-Quiet update snapshot)

  pub apply_parent_alerts-Quiet :
      (snapshot : WeatherSnapshot F) (station : ProviderStation)
      → Quiet (apply_parent_alerts p v snapshot station)
  unfolding apply_parent_alerts
  apply_parent_alerts-Quiet snapshot station = from_station-Quiet _ snapshot _

  pub apply_cached_municipality_air-Quiet :
      (snapshot : WeatherSnapshot F) (station : ProviderStation)
      → Quiet (apply_cached_municipality_air p v snapshot station)
  unfolding apply_cached_municipality_air
  apply_cached_municipality_air-Quiet snapshot station =
      if_Quiet _ _ _ (return-Quiet (ok snapshot)) (from_station-Quiet _ snapshot _)

  apply_cached_daily_high-Quiet :
      (snapshot : WeatherSnapshot F) (station : ProviderStation)
      → Quiet (apply_cached_daily_high p v snapshot station)
  unfolding apply_cached_daily_high
  apply_cached_daily_high-Quiet snapshot station =
      >>?-Quiet (reads _) _ (reads-Quiet _)
        (λ today. >>?-Quiet (await _) _ (await-Quiet _) (λ stored. return-Quiet _))

  persist_snapshot-Quiet : (snapshot : WeatherSnapshot F) → Quiet (persist_snapshot p v snapshot)
  unfolding persist_snapshot
  persist_snapshot-Quiet snapshot = >>=-Quiet (reads _) _ (reads-Quiet _) (λ now. await-Quiet _)

  fetched_weather-Quiet :
      (station : ProviderStation) (fetch : WeatherFetch F)
      → Quiet (fetched_weather p v station fetch)
  unfolding fetched_weather
  fetched_weather-Quiet station fetch =
      >>=-Quiet _ _ (apply_cached_daily_high-Quiet _ station) (λ high.
        >>=-Quiet _ _ (persist_snapshot-Quiet _) (λ stored.
          >>=-Quiet _ _ (apply_cached_municipality_air-Quiet _ station) (λ air.
            >>=-Quiet _ _ (apply_parent_alerts-Quiet _ station) (λ alerts.
              >>=-Quiet _ _ (await-Quiet _)
                (λ logged. >>-Quiet _ _ (publish-Quiet _ refl) (return-Quiet _))))))

  stale_weather-Quiet :
      (station : ProviderStation) (e : AnyError)
      (stored : Result (Option (StoredSnapshot F)) AnyError)
      → Quiet (stale_weather p v station e stored)
  unfolding stale_weather
  stale_weather-Quiet station e (ok (some stored)) =
      >>=-Quiet _ _ (apply_cached_municipality_air-Quiet _ station)
        (λ air. >>=-Quiet _ _ (apply_parent_alerts-Quiet _ station) (λ alerts. return-Quiet _))
  stale_weather-Quiet station e (ok none) = return-Quiet _
  stale_weather-Quiet station e (err cache_error) = return-Quiet _

  failed_weather-Quiet :
      (station : ProviderStation) (e : AnyError) → Quiet (failed_weather p v station e)
  unfolding failed_weather
  failed_weather-Quiet station e = >>=-Quiet _ _ (await-Quiet _) (λ logged.
      >>-Quiet _ _ (publish-Quiet _ refl)
        (>>=-Quiet _ _ (await-Quiet _) (stale_weather-Quiet station e)))

  after_fetch-Quiet :
      (station : ProviderStation) (fetched : Result (WeatherFetch F) AnyError)
      → Quiet (after_fetch p v station fetched)
  after_fetch-Quiet station (ok fetch) = fetched_weather-Quiet station fetch
  after_fetch-Quiet station (err e) = failed_weather-Quiet station e

  pub fetch_weather_uncached-Quiet :
      (station : ProviderStation) (include_debug : Bool)
      → Quiet (fetch_weather_uncached p v station include_debug)
  unfolding fetch_weather_uncached
  fetch_weather_uncached-Quiet station include_debug =
      >>=-Quiet _ _ (await-Quiet _) (after_fetch-Quiet station)
