-- ===== src/Engine.antt =====
-- weather-core/engine: the local engine that serves weather data.
pub mod Refresh
pub mod Limits
pub mod ResourceCache
pub mod Singleflight
pub mod Station
pub mod Time
pub mod Lock
pub mod Fuzzy
pub mod Lifecycle
pub mod Compatibility
pub mod Catalog
pub mod Events
pub mod Task
pub mod Weather
pub mod Transfer
