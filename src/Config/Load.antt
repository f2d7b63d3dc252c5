-- ===== src/Config/Load.antt =====
-- `Config.LoadFromEnvironment`: a variable that is set, and that can be read, takes the place of
-- its field.
pub mod Laws
use flux_externalsource_cont.Prelude.{String, Bool, Option, none, some, ◌==◌, if◌then◌else◌}
use flux_externalsource_cont.Prelude.Int.{ℤ}
use flux_externalsource_cont.Config.{
  Config, StorageConfig, S3Config, PvcConfig, HttpConfig, RetryConfig, HooksConfig, MetricsConfig,
  ArtifactServerConfig,
}
use flux_externalsource_cont.Config.Floats.{Floats}

-- The process's environment, and the functions of packages strconv and time that read a value;
-- `none` stands for an error.
pub record Environment : Type 0 where
  pub getenv : String → String
  pub parse_bool : String → Option Bool
  pub atoi : String → Option ℤ
  pub parse_duration : String → Option ℤ

-- `if v := os.Getenv(key); v != "" { field = v }`
abbrev pub set_text : String → String → String
set_text value field = if value == "" then field else value

abbrev pub value_or {ℓ} : {A : Type ℓ} → A → Option A → A
value_or field none = field
value_or field (some value) = value

-- `if v := os.Getenv(key); v != "" { if parsed, err := parse(v); err == nil { field = parsed } }`
abbrev pub set_parsed {ℓ} : {A : Type ℓ} → (String → Option A) → String → A → A
set_parsed parse value field = if value == "" then field else value_or field (parse value)

module _ (env : Environment) where
  unfoldable pub load_storage_from_env : StorageConfig → StorageConfig
  load_storage_from_env c = record {
    backend = set_text (env.getenv "STORAGE_BACKEND") c.backend;
    s3 = record {
      endpoint = set_text (env.getenv "S3_ENDPOINT") c.s3.endpoint;
      bucket = set_text (env.getenv "S3_BUCKET") c.s3.bucket;
      region = set_text (env.getenv "S3_REGION") c.s3.region;
      access_key_id = set_text (env.getenv "S3_ACCESS_KEY_ID") c.s3.access_key_id;
      secret_access_key = set_text (env.getenv "S3_SECRET_ACCESS_KEY") c.s3.secret_access_key;
      use_ssl = set_parsed env.parse_bool (env.getenv "S3_USE_SSL") c.s3.use_ssl;
      path_style = set_parsed env.parse_bool (env.getenv "S3_PATH_STYLE") c.s3.path_style;
    };
    pvc = record { path = set_text (env.getenv "PVC_STORAGE_PATH") c.pvc.path };
  }

  unfoldable pub load_http_from_env : HttpConfig → HttpConfig
  load_http_from_env c = record {
    timeout = set_parsed env.parse_duration (env.getenv "HTTP_TIMEOUT") c.timeout;
    max_idle_conns = set_parsed env.atoi (env.getenv "HTTP_MAX_IDLE_CONNS") c.max_idle_conns;
    max_idle_conns_per_host =
        set_parsed env.atoi (env.getenv "HTTP_MAX_IDLE_CONNS_PER_HOST") c.max_idle_conns_per_host;
    max_conns_per_host =
        set_parsed env.atoi (env.getenv "HTTP_MAX_CONNS_PER_HOST") c.max_conns_per_host;
    idle_conn_timeout =
        set_parsed env.parse_duration (env.getenv "HTTP_IDLE_CONN_TIMEOUT") c.idle_conn_timeout;
    user_agent = set_text (env.getenv "HTTP_USER_AGENT") c.user_agent;
  }

  unfoldable pub load_retry_from_env : (f : Floats) → RetryConfig f.Float → RetryConfig f.Float
  load_retry_from_env f c = record {
    max_attempts = set_parsed env.atoi (env.getenv "RETRY_MAX_ATTEMPTS") c.max_attempts;
    base_delay = set_parsed env.parse_duration (env.getenv "RETRY_BASE_DELAY") c.base_delay;
    max_delay = set_parsed env.parse_duration (env.getenv "RETRY_MAX_DELAY") c.max_delay;
    jitter_factor = set_parsed f.parse_float (env.getenv "RETRY_JITTER_FACTOR") c.jitter_factor;
  }

  unfoldable pub load_hooks_from_env : HooksConfig → HooksConfig
  load_hooks_from_env c = record {
    whitelist_path = set_text (env.getenv "HOOK_WHITELIST_PATH") c.whitelist_path;
    sidecar_endpoint = set_text (env.getenv "HOOK_EXECUTOR_ENDPOINT") c.sidecar_endpoint;
    default_timeout =
        set_parsed env.parse_duration (env.getenv "HOOK_DEFAULT_TIMEOUT") c.default_timeout;
  }

  unfoldable pub load_metrics_from_env : MetricsConfig → MetricsConfig
  load_metrics_from_env c = record {
    enabled = set_parsed env.parse_bool (env.getenv "METRICS_ENABLED") c.enabled;
    interval = set_parsed env.parse_duration (env.getenv "METRICS_INTERVAL") c.interval;
  }

  unfoldable pub load_artifact_server_from_env : ArtifactServerConfig → ArtifactServerConfig
  load_artifact_server_from_env c = record {
    enabled = set_parsed env.parse_bool (env.getenv "ARTIFACT_SERVER_ENABLED") c.enabled;
    port = set_parsed env.atoi (env.getenv "ARTIFACT_SERVER_PORT") c.port;
    service_name = set_text (env.getenv "SERVICE_NAME") c.service_name;
    service_namespace = set_text (env.getenv "POD_NAMESPACE") c.service_namespace;
  }

  unfoldable pub load_from_environment : (f : Floats) → Config f.Float → Config f.Float
  unfolding load_storage_from_env load_http_from_env load_retry_from_env load_hooks_from_env
      load_metrics_from_env load_artifact_server_from_env
  load_from_environment f c = record {
    storage = load_storage_from_env c.storage;
    http = load_http_from_env c.http;
    retry = load_retry_from_env f c.retry;
    hooks = load_hooks_from_env c.hooks;
    metrics = load_metrics_from_env c.metrics;
    artifact_server = load_artifact_server_from_env c.artifact_server;
  }
