-- ===== src/Schema.antt =====
-- weather-schema: what the engine and its clients share.
pub mod Constants
pub mod Messages
pub mod Station
pub mod Uuid
pub mod Correlation
pub mod Weather
