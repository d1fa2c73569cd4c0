-- ===== src/Schema/Weather.antt =====
-- weather-schema/weather/schema/v1/weather.proto: the messages of a weather request, as their
-- generated types. `F` is the type of `double`.
use weather_app.Common.{Bool, List, [], Option, none, ℕ}
use weather_app.Common.Text.{Text}
use weather_app.Schema.Messages.{StationRef}

pub record GetWeatherRequest : Type 0 where
  pub unified_uuid : Text
  pub refresh : Bool
  pub include_debug : Bool

pub record WeatherAlert : Type 0 where
  pub alert : Option Text
  pub province : Option Text
  pub city : Option Text
  pub url : Option Text
  pub issue_content : Option Text
  pub prevention : Option Text
  pub signal_type : Option Text
  pub signal_level : Option Text
  pub icon_url : Option Text
  pub icon_name : Option Text
  pub icon_resource_id : Option Text
  pub inherited : Bool

pub record ObservedWeather (F : Type 0) : Type 0 where
  pub publish_time : Option Text
  pub info : Option Text
  pub temperature : Option F
  pub feel_temperature : Option F
  pub humidity : Option F
  pub rain : Option F
  pub wind_direct : Option Text
  pub wind_power : Option Text
  pub wind_speed : Option F
  pub sunrise : Option Text
  pub sunset : Option Text
  pub alerts : List WeatherAlert
  pub temperature_diff : Option F
  pub air_pressure : Option F
  pub comfort_index : Option Text
  pub comfort_label : Option Text
  pub weather_icon : Option Text
  pub wind_degree : Option F

-- `ObservedWeather::default`.
abbrev pub no_observation : {F : Type 0} → ObservedWeather F
no_observation = record {
  publish_time = none;
  info = none;
  temperature = none;
  feel_temperature = none;
  humidity = none;
  rain = none;
  wind_direct = none;
  wind_power = none;
  wind_speed = none;
  sunrise = none;
  sunset = none;
  alerts = [];
  temperature_diff = none;
  air_pressure = none;
  comfort_index = none;
  comfort_label = none;
  weather_icon = none;
  wind_degree = none;
}

pub record ForecastDay (F : Type 0) : Type 0 where
  pub date : Text
  pub day_info : Option Text
  pub night_info : Option Text
  pub day_temperature : Option Text
  pub night_temperature : Option Text
  pub wind_direct : Option Text
  pub wind_power : Option Text
  pub precipitation : Option F
  pub publish_time : Option Text
  pub day_weather_icon : Option Text
  pub night_weather_icon : Option Text
  pub day_wind_direct : Option Text
  pub day_wind_power : Option Text
  pub night_wind_direct : Option Text
  pub night_wind_power : Option Text

pub record ForecastReport (F : Type 0) : Type 0 where
  pub publish_time : Option Text
  pub days : List (ForecastDay F)

pub record AirQuality (F : Type 0) : Type 0 where
  pub publish_time : Option Text
  pub aqi : Option F
  pub level : Option Text
  pub category : Option Text
  pub primary_pollutant : Option Text
  pub pm2_5 : Option F
  pub pm10 : Option F
  pub no2 : Option F
  pub so2 : Option F
  pub co : Option F
  pub o3 : Option F

pub record TemperatureChart (F : Type 0) : Type 0 where
  pub date : Option Text
  pub max_temperature : Option F
  pub min_temperature : Option F
  pub day_info : Option Text
  pub day_icon : Option Text
  pub night_info : Option Text
  pub night_icon : Option Text

pub record PassedWeatherChart (F : Type 0) : Type 0 where
  pub time : Option Text
  pub rain_1h : Option F
  pub rain_6h : Option F
  pub rain_12h : Option F
  pub rain_24h : Option F
  pub temperature : Option F
  pub temperature_diff : Option F
  pub humidity : Option F
  pub pressure : Option F
  pub wind_direction_degree : Option F
  pub wind_speed : Option F

pub record ClimateMonth (F : Type 0) : Type 0 where
  pub month : Option ℕ
  pub average_max_temperature : Option F
  pub average_min_temperature : Option F
  pub precipitation : Option F

pub record ClimateSummary (F : Type 0) : Type 0 where
  pub period : Option Text
  pub month : List (ClimateMonth F)

pub record RadarInfo : Type 0 where
  pub title : Option Text
  pub image_url : Option Text
  pub page_url : Option Text
  pub image_resource_id : Option Text

pub record DebugPayload : Type 0 where
  pub provider : Text
  pub operation : Text
  pub endpoint : Text
  pub raw_json : Text
  pub warnings : List Text

pub record WeatherSnapshot (F : Type 0) : Type 0 where
  pub station : Option StationRef
  pub real : Option (ObservedWeather F)
  pub predict : Option (ForecastReport F)
  pub air : Option (AirQuality F)
  pub tempchart : List (TemperatureChart F)
  pub passedchart : List (PassedWeatherChart F)
  pub climate : Option (ClimateSummary F)
  pub radar : Option RadarInfo
  pub stale : Bool
  pub debug : Option DebugPayload
