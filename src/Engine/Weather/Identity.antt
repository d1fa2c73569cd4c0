-- ===== src/Engine/Weather/Identity.antt =====
-- weather-core/engine/src/handlers/weather.rs: the updates of a snapshot leave its station and staleness.
use weather_app.Common.{
  Bool, true, false, List, [], ◌∷◌, Option, none, some, ◌≡◌, inl, inr, refl, ◌∙◌, Option-cases,
  if◌then◌else◌, ◌==◌, list_eq, nat_eq, Result, ok, err, arith,
}
use weather_app.Common.Text.{Text}
use weather_app.Schema.Weather.{WeatherSnapshot, WeatherAlert}
use weather_app.Db.Catalog.{ProviderStation}
use weather_app.Engine.Task.{AnyError}
use weather_app.Engine.Weather.Merging.{merge_parent_alerts}
use weather_app.Engine.Weather.Temperatures.{
  Platform, StoredSnapshot, merge_cached_daily_high, fill_today, fill_high, fill_forecast,
  fill_tempchart, current_forecast_index, current_temperature_chart_index, parse_full_date,
}
use weather_app.Engine.Weather.Services.{Services}
use weather_app.Engine.Task.Yields.{OnOk, Yields, return-Yields, then_Yields, >>?-Yields, if_Yields}
use weather_app.Engine.Weather.Fetch.{
  kept, if_fresh, take_air, from_fresh, from_station, high_from, apply_parent_alerts,
  apply_cached_municipality_air, apply_cached_daily_high,
}

-- An update that leaves the station and the staleness.
abbrev pub Like : {F : Type 0} → WeatherSnapshot F → WeatherSnapshot F → Type 0
Like snapshot updated = (updated.station ≡ snapshot.station) × (updated.stale ≡ snapshot.stale)

module _ {F : Type 0} where
  Like-trans : (a b c : WeatherSnapshot F) → Like a b → Like b c → Like a c
  Like-trans a b c h k = (k.0 ∙ h.0, k.1 ∙ h.1)

  pub kept-Like :
      (r : Result (WeatherSnapshot F) AnyError) (before snapshot : WeatherSnapshot F)
      → OnOk (Like snapshot) r
      → Like before snapshot
      → Like before (kept r snapshot)
  kept-Like (ok updated) before snapshot h k = Like-trans before snapshot updated k h
  kept-Like (err e) before snapshot h k = k

  if_fresh-Like :
      (fresh : Result Bool AnyError) (updated snapshot : WeatherSnapshot F)
      → Like snapshot updated
      → OnOk (Like snapshot) (if_fresh fresh updated snapshot)
  if_fresh-Like (err e) updated snapshot h = tt
  if_fresh-Like (ok true) updated snapshot h = h
  if_fresh-Like (ok false) updated snapshot h = (refl, refl)

  merge_parent_alerts-Like :
      (snapshot : WeatherSnapshot F) (alerts : List WeatherAlert)
      → Like snapshot (merge_parent_alerts snapshot alerts)
  unfolding merge_parent_alerts
  merge_parent_alerts-Like snapshot [] = (refl, refl)
  merge_parent_alerts-Like snapshot (alert ∷ alerts) = (refl, refl)

  take_air-Like :
      (stored : StoredSnapshot F) (snapshot : WeatherSnapshot F)
      → Like snapshot (take_air stored snapshot)
  take_air-Like stored snapshot = elim (Option-cases stored.snapshot.air) [
    | inl e ↦ (ground (arith, e), ground (arith, e))
    | inr (air, e) ↦ (ground (arith, e), ground (arith, e))
  ]

module _ {F D : Type 0} (p : Platform F D) where
  fill_forecast-Like :
      (high : F) (i : Option _) (s : WeatherSnapshot F) → Like s (fill_forecast p high i s)
  fill_forecast-Like high none s = (refl, refl)
  fill_forecast-Like high (some i) s = (refl, refl)

  fill_tempchart-Like :
      (high : F) (i : Option _) (s : WeatherSnapshot F) → Like s (fill_tempchart p high i s)
  fill_tempchart-Like high none s = (refl, refl)
  fill_tempchart-Like high (some i) s = (refl, refl)

  fill_high-Like :
      (today : D) (high : Option F) (s : WeatherSnapshot F) → Like s (fill_high p today high s)
  fill_high-Like today none s = (refl, refl)
  fill_high-Like today (some high) s =
      let filled = fill_forecast p high (current_forecast_index p s today) s in
      let index = current_temperature_chart_index p filled today in
      Like-trans s filled (fill_tempchart p high index filled) (fill_forecast-Like high _ s)
        (fill_tempchart-Like high index filled)

  fill_today-Like :
      (today : Option D) (stored : StoredSnapshot F) (s : WeatherSnapshot F)
      → Like s (fill_today p today stored s)
  fill_today-Like none stored s = (refl, refl)
  fill_today-Like (some today) stored s = fill_high-Like today _ s

  if_Like : (b : Bool) (s t : WeatherSnapshot F) → Like s t → Like s (if b then t else s)
  if_Like true s t h = h
  if_Like false s t h = (refl, refl)

  merge_cached_daily_high-Like :
      (s : WeatherSnapshot F) (stored : StoredSnapshot F) (today : Text)
      → Like s (merge_cached_daily_high p s stored today)
  unfolding merge_cached_daily_high
  merge_cached_daily_high-Like s stored today =
      if_Like (stored.date == today) s _ (fill_today-Like (parse_full_date p today) stored s)

  module _ {S : Type 0} (v : Services F S) where
    high_from-Like :
        (s : WeatherSnapshot F) (today : Text) (stored : Option (StoredSnapshot F))
        → Like s (high_from p v s today stored)
    high_from-Like s today none = (refl, refl)
    high_from-Like s today (some stored) = merge_cached_daily_high-Like s stored today

    from_fresh-Like :
        (update : StoredSnapshot F → WeatherSnapshot F) (s : WeatherSnapshot F)
        (stored : Option (StoredSnapshot F))
        → ((stored : StoredSnapshot F) → Like s (update stored))
        → Yields (OnOk (Like s)) (from_fresh p v update s stored)
    from_fresh-Like update s none h = return-Yields _ (refl, refl)
    from_fresh-Like update s (some stored) h =
        then_Yields _ _
          (λ fresh. return-Yields _ (if_fresh-Like fresh (update stored) s (h stored)))

    from_station-Like :
        (update : StoredSnapshot F → WeatherSnapshot F) (s : WeatherSnapshot F) (name : Option Text)
        → ((stored : StoredSnapshot F) → Like s (update stored))
        → Yields (OnOk (Like s)) (from_station p v update s name)
    from_station-Like update s none h = return-Yields _ (refl, refl)
    from_station-Like update s (some name) h =
        >>?-Yields _ _ (λ stored. from_fresh-Like update s stored h)

    pub apply_parent_alerts-Like :
        (s : WeatherSnapshot F) (station : ProviderStation)
        → Yields (OnOk (Like s)) (apply_parent_alerts p v s station)
    unfolding apply_parent_alerts
    apply_parent_alerts-Like s station =
        from_station-Like _ s _ (λ stored. merge_parent_alerts-Like s _)

    pub apply_cached_municipality_air-Like :
        (s : WeatherSnapshot F) (station : ProviderStation)
        → Yields (OnOk (Like s)) (apply_cached_municipality_air p v s station)
    unfolding apply_cached_municipality_air
    apply_cached_municipality_air-Like s station =
        if_Yields _ _ _ (return-Yields _ (refl, refl))
          (from_station-Like _ s _ (λ stored. take_air-Like stored s))

    pub apply_cached_daily_high-Like :
        (s : WeatherSnapshot F) (station : ProviderStation)
        → Yields (OnOk (Like s)) (apply_cached_daily_high p v s station)
    unfolding apply_cached_daily_high
    apply_cached_daily_high-Like s station =
        >>?-Yields _ _
          (λ today. >>?-Yields _ _ (λ stored. return-Yields _ (high_from-Like s today stored)))
