-- ===== src/Config.antt =====
-- internal/config/config.go: the controller's configuration. `F` stands for float64, whose
-- values come from a parameter (Config/Floats), since nothing but jitter uses them.
pub mod Floats
pub mod Validate
pub mod Load
pub mod ConfigMap
pub mod Manager
use flux_externalsource_cont.Prelude.{String, Bool}
use flux_externalsource_cont.Prelude.Int.{ℤ}

pub record S3Config : Type 0 where
  pub endpoint : String
  pub bucket : String
  pub region : String
  pub access_key_id : String
  pub secret_access_key : String
  pub use_ssl : Bool
  pub path_style : Bool

pub record PvcConfig : Type 0 where
  pub path : String

pub record StorageConfig : Type 0 where
  pub backend : String
  pub s3 : S3Config
  pub pvc : PvcConfig

-- Durations are nanoseconds.
pub record HttpConfig : Type 0 where
  pub timeout : ℤ
  pub max_idle_conns : ℤ
  pub max_idle_conns_per_host : ℤ
  pub max_conns_per_host : ℤ
  pub idle_conn_timeout : ℤ
  pub user_agent : String

pub record RetryConfig (F : Type 0) : Type 0 where
  pub max_attempts : ℤ
  pub base_delay : ℤ
  pub max_delay : ℤ
  pub jitter_factor : F

pub record HooksConfig : Type 0 where
  pub whitelist_path : String
  pub sidecar_endpoint : String
  pub default_timeout : ℤ

pub record MetricsConfig : Type 0 where
  pub enabled : Bool
  pub interval : ℤ

pub record ArtifactServerConfig : Type 0 where
  pub enabled : Bool
  pub port : ℤ
  pub service_name : String
  pub service_namespace : String

pub record Config (F : Type 0) : Type 0 where
  pub storage : StorageConfig
  pub http : HttpConfig
  pub retry : RetryConfig F
  pub hooks : HooksConfig
  pub metrics : MetricsConfig
  pub artifact_server : ArtifactServerConfig
