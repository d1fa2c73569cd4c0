-- ===== src/Engine/Weather.antt =====
-- weather-core/engine/src/handlers/weather.rs: the request for the weather of a station.
pub mod Temperatures
pub mod Merging
pub mod Services
pub mod Fetch
pub mod Request
pub mod Quiet
pub mod Unreported
pub mod Closing
pub mod Refreshes
pub mod Links
pub mod Identity
pub mod Fetched
