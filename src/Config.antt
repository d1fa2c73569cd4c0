-- ===== src/Config.antt =====
-- weather-core/conf/src/types.rs: the configuration, without its TOML form.
pub mod Validate
pub mod Normalize
use weather_app.Common.{Bool, List, Option, ℕ}
use weather_app.Common.Text.{Text}

pub record EngineConfig : Type 0 where
  pub request_timeout_ms : ℕ
  pub startup_timeout_ms : ℕ
  pub lock_path : Text
  pub log_level : Text

pub record IpcConfig : Type 0 where
  pub rpc_endpoint : Text
  pub pub_endpoint : Text
  pub hmac : Text
  pub hmac_key : Text
  pub hmac_env_key_name : Text

pub record DbConfig : Type 0 where
  pub path : Text
  pub timezone : Text

pub record NetworkConfig : Type 0 where
  pub http_proxy : Option Text
  pub https_proxy : Option Text
  pub no_proxy : Option Text
  pub all_proxy : Option Text
  pub allow_insecure : Bool

pub record ProviderNetworkConfig : Type 0 where
  pub http_proxy : Option Text
  pub https_proxy : Option Text
  pub no_proxy : Option Text
  pub all_proxy : Option Text
  pub allow_insecure : Option Bool

pub record ProviderConfig : Type 0 where
  pub name : Text
  pub base_url : Text
  pub request_timeout_seconds : ℕ
  pub network : ProviderNetworkConfig

pub record UpdaterConfig : Type 0 where
  pub weather_ttl_seconds : ℕ
  pub province_ttl_seconds : ℕ
  pub default_provider : Text
  pub network : NetworkConfig
  pub provider : List ProviderConfig

pub record StationConfig : Type 0 where
  pub name : Text
  pub enabled : Bool

pub record AppConfig : Type 0 where
  pub config_version : ℕ
  pub engine : EngineConfig
  pub ipc : IpcConfig
  pub db : DbConfig
  pub updater : UpdaterConfig
  pub stations : List StationConfig
