-- ===== src/Engine/Weather/Fetched.antt =====
-- weather-core/engine/src/handlers/weather.rs: whose weather a fetch gives, and how stale it is.
use weather_app.Common.{true, List, ◌∷◌, Option, some, ℕ, ◌≡◌, ◌⊎◌, Result, ok, err}
use weather_app.Common.Text.{Text}
use weather_app.Schema.Messages.{StationRef}
use weather_app.Schema.Weather.{WeatherSnapshot}
use weather_app.Db.Catalog.{ProviderStation}
use weather_app.Engine.Station.{merge_station}
use weather_app.Engine.Task.{AnyError, Task}
use weather_app.Engine.Weather.Services.{Services, WeatherFetch}
use weather_app.Engine.Task.Yields.{Yields}

-- The station of a snapshot is that of an upstream answer, completed by the station asked for.
abbrev pub IsOf : {F : Type 0} → (List ℕ → List ℕ) → ProviderStation → WeatherSnapshot F → Type 0
IsOf digest station snapshot =
    (upstream : Option StationRef) × (snapshot.station
      ≡ some (merge_station digest upstream station))

-- What an answer of the provider makes of the result of a fetch.
abbrev pub Gives :
    {F : Type 0}
    → (List ℕ → List ℕ)
    → ProviderStation
    → Result (WeatherFetch F) AnyError
    → Result (WeatherSnapshot F) AnyError
    → Type 0
Gives digest station (ok fetch) (ok snapshot) =
    IsOf digest station snapshot × (snapshot.stale ≡ fetch.snapshot.stale)
Gives digest station (ok fetch) (err e) = ⊥
Gives digest station (err e) (ok snapshot) = IsOf digest station snapshot × (snapshot.stale ≡ true)
Gives digest station (err e) (err e') = (e' ≡ e) ⊎ ((context : Text) × (e' ≡ context ∷ e))
