-- ===== src/Schema/Constants.antt =====
-- weather-schema/src/constants.rs: the bounds of the paged requests.
use weather_app.Common.{ℕ}

abbrev pub max_rpc_page_size : ℕ
max_rpc_page_size = 256

abbrev pub max_rpc_page_offset : ℕ
max_rpc_page_offset = 100000
