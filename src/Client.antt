-- ===== src/Client.antt =====
-- weather-renderer/common and the terminal client: what the user interfaces ask of the engine.
pub mod Pagination
pub mod Pending
pub mod Search
pub mod Session
pub mod Assembler
