-- ===== src/Engine/Weather/Links.antt =====
-- weather-core/engine/src/handlers/weather.rs: the snapshots that clients receive hold no addresses of the
-- provider.
use weather_app.Common.{Option, none, some, ◌≡◌, All}
use weather_app.Common.Text.{Text}
use weather_app.Schema.Weather.{WeatherSnapshot, WeatherAlert, RadarInfo, ObservedWeather}
use weather_app.Engine.Task.{Task}
use weather_app.Engine.Weather.Services.{Services}
use weather_app.Engine.Task.Yields.{Yields}
use weather_app.Engine.Weather.Request.{Response, bad_request, weather_error, snapshot_response}

abbrev pub IsUnlinked : WeatherAlert → Type 0
IsUnlinked alert = (alert.url ≡ none) × (alert.icon_url ≡ none)

abbrev pub RadarUnlinked : Option RadarInfo → Type 0
RadarUnlinked none = Unit
RadarUnlinked (some radar) = (radar.image_url ≡ none) × (radar.page_url ≡ none)

abbrev pub AlertsUnlinked : {F : Type 0} → Option (ObservedWeather F) → Type 0
AlertsUnlinked none = Unit
AlertsUnlinked (some real) = All IsUnlinked real.alerts

abbrev pub NoLinks : {F : Type 0} → WeatherSnapshot F → Type 0
NoLinks snapshot = RadarUnlinked snapshot.radar × AlertsUnlinked snapshot.real

abbrev pub ResponseUnlinked : {F : Type 0} → Response F → Type 0
ResponseUnlinked (bad_request message) = Unit
ResponseUnlinked (weather_error message) = Unit
ResponseUnlinked (snapshot_response snapshot) = NoLinks snapshot
