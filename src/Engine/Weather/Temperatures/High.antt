-- ===== src/Engine/Weather/Temperatures/High.antt =====
-- weather-core/engine/src/handlers/weather.rs: a stored high fills gaps, and overwrites nothing.
use weather_app.Common.{
  Bool, true, false, List, [], ◌∷◌, Option, none, some, ℕ, zero, suc, ◌≡◌, ◌≢◌, refl, sym, ap, ◌∙◌,
  arith, get_elem?, Bool-cases, inl, inr, if◌then◌else◌, if_true, if_false, is_some, map_option,
  ◌==◌, ==_iff, list_eq, nat_eq,
}
use weather_app.Common.Text.{Text}
use weather_app.Schema.Weather.{WeatherSnapshot, ForecastReport, ForecastDay, TemperatureChart}
use weather_app.Engine.Weather.Temperatures.{
  Platform, StoredSnapshot, modify_at, parse_temperature, finite, forecast_days, fill_day,
  fill_days, fill_chart, fill_forecast, fill_tempchart, fill_high, fill_today,
  current_forecast_index, current_temperature_chart_index, parse_full_date, merge_cached_daily_high,
}

-- The elements of a list that a test passes stand where they stood.
abbrev pub Keeps : {A : Type 0} → (A → Bool) → List A → List A → Type 0
Keeps {A} p l out = (i : ℕ) (x : A) → get_elem? l i ≡ some x → p x ≡ true → get_elem? out i ≡ some x

modify_at-Keeps :
    {A : Type 0} (p : A → Bool) (f : A → A) (i : ℕ) (l : List A)
    → ((x : A) → p x ≡ true → f x ≡ x)
    → Keeps p l (modify_at i f l)
modify_at-Keeps p f i [] h j x e t = e
modify_at-Keeps p f zero (y ∷ l) h zero x e t =
    let same : y ≡ x = cc in rw same (ap (λ z. some z) (h x t))
modify_at-Keeps p f zero (y ∷ l) h (suc j) x e t = e
modify_at-Keeps p f (suc i) (y ∷ l) h zero x e t = e
modify_at-Keeps p f (suc i) (y ∷ l) h (suc j) x e t = modify_at-Keeps p f i l h j x e t

module _ {F D : Type 0} (p : Platform F D) where
  -- A temperature that can be read and is finite.
  abbrev pub has_day_high : ForecastDay F → Bool
  has_day_high day = is_some (finite p (parse_temperature p day.day_temperature))

  abbrev pub has_chart_high : TemperatureChart F → Bool
  has_chart_high chart = is_some (finite p chart.max_temperature)

  -- What a merge leaves of a snapshot.
  abbrev pub Preserves : WeatherSnapshot F → WeatherSnapshot F → Type 0
  Preserves s out =
      Keeps has_day_high (forecast_days p s) (forecast_days p out)
      × Keeps has_chart_high s.tempchart out.tempchart

  same_Preserves : (s : WeatherSnapshot F) → Preserves s s
  same_Preserves s = (λ i x e t. e, λ i x e t. e)

  fill_days-Keeps :
      (high : F) (index : ℕ) (forecast : Option (ForecastReport F)) (s : WeatherSnapshot F)
      → s.predict ≡ forecast
      → Keeps has_day_high
          (forecast_days p s)
          (forecast_days p (record s { predict = map_option (fill_days p high index) forecast }))
  fill_days-Keeps high index none s h i x e t = ground (arith, h, e)
  fill_days-Keeps high index (some forecast) s h i x e t =
      let days : forecast_days p s ≡ forecast.days = ground (arith, h) in
      modify_at-Keeps has_day_high (fill_day p high) index forecast.days (λ x t. if_true _ _ t) i x
        (ap (λ l. get_elem? l i) (sym days) ∙ e) t

  fill_forecast-Preserves :
      (high : F) (index : Option ℕ) (s : WeatherSnapshot F)
      → Preserves s (fill_forecast p high index s)
  fill_forecast-Preserves high none s = same_Preserves s
  fill_forecast-Preserves high (some index) s =
      (fill_days-Keeps high index s.predict s refl, λ i x e t. e)

  fill_tempchart-Preserves :
      (high : F) (index : Option ℕ) (s : WeatherSnapshot F)
      → Preserves s (fill_tempchart p high index s)
  fill_tempchart-Preserves high none s = same_Preserves s
  fill_tempchart-Preserves high (some index) s = (
    λ i x e t. e,
    modify_at-Keeps has_chart_high (fill_chart p high) index s.tempchart (λ x t. if_true _ _ t),
  )

  fill_high-Preserves :
      (today : D) (high : Option F) (s : WeatherSnapshot F) → Preserves s (fill_high p today high s)
  fill_high-Preserves today none s = same_Preserves s
  fill_high-Preserves today (some high) s =
      let filled = fill_forecast p high (current_forecast_index p s today) s in
      let (days, charts) = fill_forecast-Preserves high (current_forecast_index p s today) s in
      let (days', charts') =
        fill_tempchart-Preserves high (current_temperature_chart_index p filled today) filled in
      (λ i x e t. days' i x (days i x e t) t, λ i x e t. charts' i x (charts i x e t) t)

  fill_today-Preserves :
      (today : Option D) (stored : StoredSnapshot F) (s : WeatherSnapshot F)
      → Preserves s (fill_today p today stored s)
  fill_today-Preserves none stored s = same_Preserves s
  fill_today-Preserves (some today) stored s = fill_high-Preserves today _ s

  if_Preserves :
      (b : Bool) (s t : WeatherSnapshot F) → Preserves s t → Preserves s (if b then t else s)
  if_Preserves true s t h = h
  if_Preserves false s t h = same_Preserves s

  -- A stored high overwrites no finite temperature, whatever dates and formats the snapshots have, and
  -- a snapshot that was stored on another day than today changes nothing.
  pub merge_cached_daily_high_lem :
      (s : WeatherSnapshot F) (stored : StoredSnapshot F) (today : Text)
      → Preserves s (merge_cached_daily_high p s stored today)
        × (stored.date ≢ today → merge_cached_daily_high p s stored today ≡ s)
  unfolding merge_cached_daily_high
  merge_cached_daily_high_lem s stored today = (
    if_Preserves (stored.date == today) s _
        (fill_today-Preserves (parse_full_date p today) stored s),
    λ other. elim (Bool-cases (stored.date == today)) [
      | inl same ↦ absurd (other ((==_iff stored.date today).0 same))
      | inr no_match ↦ if_false _ _ no_match
    ],
  )
