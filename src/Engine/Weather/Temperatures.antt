-- ===== src/Engine/Weather/Temperatures.antt =====
-- weather-core/engine/src/handlers/weather.rs and temperature_history.rs: the dates and temperatures in
-- a snapshot. `F` is `f64` and `D` chrono's `NaiveDate`, with what the code asks of them.
pub mod High
use weather_app.Common.{
  Bool, true, false, not, ◌&&◌, ◌||◌, List, [], ◌∷◌, ◌++◌, Option, none, some, ℕ, zero, suc, ◌+◌,
  ◌-◌, length, get_elem?, if◌then◌else◌, eqb, ltb, Key, ◌==◌, list_eq, nat_eq, and_then, or_else,
  map_option, filter_option, is_some,
}
use weather_app.Common.Text.{Text, text, trim, trim_end_matches, first_word, is_empty}
use weather_app.Schema.Weather.{WeatherSnapshot, ForecastReport, ForecastDay, TemperatureChart}

-- A year is counted from the one before chrono's first.
pub record Platform (F D : Type 0) : Type 0 where
  pub parse_float : Text → Option F
  pub is_finite : F → Bool
  pub is_whole : F → Bool
  pub whole_text : F → Text
  pub float_text : F → Text
  pub date_key : Key D
  pub parse_from_str : Text → Text → Option D
  pub year : D → ℕ
  pub month : D → ℕ
  pub day : D → ℕ
  pub from_ymd : ℕ → ℕ → ℕ → Option D
  pub days_between : D → D → ℕ

pub record StoredSnapshot (F : Type 0) : Type 0 where
  pub date : Text
  pub snapshot : WeatherSnapshot F
  pub fetched_at_unix_ms : ℕ

-- `find_map`.
abbrev pub find_map {ℓ κ} : {A : Type ℓ} {B : Type κ} → (A → Option B) → List A → Option B
find_map f [] = none
find_map f (x ∷ xs) = or_else (f x) (find_map f xs)

-- `position`.
abbrev pub find_index {ℓ} : {A : Type ℓ} → (A → Bool) → List A → Option ℕ
find_index p [] = none
find_index p (x ∷ xs) = if p x then some 0 else map_option (λ i. suc i) (find_index p xs)

-- A write through `get_mut` of a vector: nothing changes out of range.
abbrev pub modify_at {ℓ} : {A : Type ℓ} → ℕ → (A → A) → List A → List A
modify_at i f [] = []
modify_at zero f (x ∷ xs) = f x ∷ xs
modify_at (suc i) f (x ∷ xs) = x ∷ modify_at i f xs

abbrev pub is_degree : ℕ → Bool
is_degree c = eqb c 0xb0 || eqb c 0x2103

abbrev pub full_formats : List Text
full_formats = text "%Y-%m-%d" ∷ text "%Y/%m/%d" ∷ text "%Y.%m.%d" ∷ []

abbrev pub short_formats : List Text
short_formats = text "%m-%d" ∷ text "%m/%d" ∷ text "%m.%d" ∷ []

module _ {F D : Type 0} (p : Platform F D) where
  unfoldable pub parse_temperature : Option Text → Option F
  parse_temperature value =
      and_then value (λ t. p.parse_float (trim (trim_end_matches is_degree (trim t))))

  unfoldable pub parse_full_date : Text → Option D
  parse_full_date value =
      and_then (first_word value)
        (λ date. find_map (λ format. p.parse_from_str date format) full_formats)

  abbrev pub nearer : D → D → Option D → Option D
  nearer base date none = some date
  nearer base date (some later) =
      if ltb (p.days_between later base) (p.days_between date base) then some later else some date

  -- The dates of the years given, and the first that is nearest to the base.
  abbrev pub nearest_date : D → ℕ → ℕ → List ℕ → Option D
  nearest_date base month day [] = none
  nearest_date base month day (year ∷ years) =
      let rest = nearest_date base month day years in
      elim (p.from_ymd year month day) [ some date ↦ nearer base date rest | none ↦ rest ]

  unfoldable pub parse_short_date : Text → D → Option D
  parse_short_date value base = and_then (first_word value) (λ date.
      and_then
        (find_map (λ format. p.parse_from_str (text "2000-" ++ date) (text "%Y-" ++ format))
          short_formats)
        (λ found.
          nearest_date base (p.month found) (p.day found)
            ((p.year base - 1) ∷ p.year base ∷ (p.year base + 1) ∷ [])))

  unfoldable pub parse_relative_date : Text → D → Option D
  parse_relative_date value base = or_else (parse_full_date value) (parse_short_date value base)

  abbrev pub is_date : Option D → D → Bool
  is_date none date = false
  is_date (some found) date = p.date_key.same found date

  unfoldable pub current_forecast_index : WeatherSnapshot F → D → Option ℕ
  current_forecast_index snapshot today = and_then snapshot.predict (λ forecast.
      find_index (λ day. is_date (parse_relative_date day.date today) today) forecast.days)

  abbrev pub has_no_date : TemperatureChart F → Bool
  has_no_date chart = elim chart.date [ none ↦ true | some value ↦ is_empty (trim value) ]

  abbrev pub lone_chart : List (TemperatureChart F) → Option ℕ
  lone_chart [] = none
  lone_chart (chart ∷ []) = if has_no_date chart then some 0 else none
  lone_chart (chart ∷ (other ∷ charts)) = none

  unfoldable pub current_temperature_chart_index : WeatherSnapshot F → D → Option ℕ
  current_temperature_chart_index snapshot today =
      or_else
        (find_index
          (λ chart. is_date (and_then chart.date (λ value. parse_relative_date value today)) today)
          snapshot.tempchart)
        (lone_chart snapshot.tempchart)

  abbrev pub finite : Option F → Option F
  finite value = filter_option p.is_finite value

  abbrev pub forecast_days : WeatherSnapshot F → List (ForecastDay F)
  forecast_days snapshot = elim snapshot.predict [ none ↦ [] | some forecast ↦ forecast.days ]

  unfoldable pub snapshot_daily_high : WeatherSnapshot F → D → Option F
  snapshot_daily_high snapshot today =
      or_else
        (and_then (current_forecast_index snapshot today) (λ index.
          and_then (get_elem? (forecast_days snapshot) index)
            (λ day. finite (parse_temperature day.day_temperature))))
        (and_then (current_temperature_chart_index snapshot today) (λ index.
          and_then (get_elem? snapshot.tempchart index) (λ chart. finite chart.max_temperature)))

  unfoldable pub temperature_text : F → Text
  temperature_text value = if p.is_whole value then p.whole_text value else p.float_text value

  abbrev pub fill_day : F → ForecastDay F → ForecastDay F
  fill_day high day =
      if is_some (finite (parse_temperature day.day_temperature))
      then day
      else record day { day_temperature = some (temperature_text high) }

  abbrev pub fill_chart : F → TemperatureChart F → TemperatureChart F
  fill_chart high chart =
      if is_some (finite chart.max_temperature)
      then chart
      else record chart { max_temperature = some high }

  abbrev pub fill_days : F → ℕ → ForecastReport F → ForecastReport F
  fill_days high index forecast = record forecast {
    days = modify_at index (fill_day high) forecast.days;
  }

  abbrev pub fill_forecast : F → Option ℕ → WeatherSnapshot F → WeatherSnapshot F
  fill_forecast high none snapshot = snapshot
  fill_forecast high (some index) snapshot = record snapshot {
    predict = map_option (fill_days high index) snapshot.predict;
  }

  abbrev pub fill_tempchart : F → Option ℕ → WeatherSnapshot F → WeatherSnapshot F
  fill_tempchart high none snapshot = snapshot
  fill_tempchart high (some index) snapshot = record snapshot {
    tempchart = modify_at index (fill_chart high) snapshot.tempchart;
  }

  abbrev pub fill_high : D → Option F → WeatherSnapshot F → WeatherSnapshot F
  fill_high today none snapshot = snapshot
  fill_high today (some high) snapshot =
      let filled = fill_forecast high (current_forecast_index snapshot today) snapshot in
      fill_tempchart high (current_temperature_chart_index filled today) filled

  abbrev pub fill_today : Option D → StoredSnapshot F → WeatherSnapshot F → WeatherSnapshot F
  fill_today none stored snapshot = snapshot
  fill_today (some today) stored snapshot =
      fill_high today
        (or_else (snapshot_daily_high snapshot today) (snapshot_daily_high stored.snapshot today))
        snapshot

  -- The flag that the source returns, whether something changed, is read by no caller of it.
  unfoldable pub merge_cached_daily_high :
      WeatherSnapshot F → StoredSnapshot F → Text → WeatherSnapshot F
  merge_cached_daily_high snapshot stored today =
      if stored.date == today then fill_today (parse_full_date today) stored snapshot else snapshot
