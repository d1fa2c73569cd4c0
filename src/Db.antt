-- ===== src/Db.antt =====
-- weather-core/db: the records of the provider's catalog and their validation.
pub mod Catalog
pub mod Validation
