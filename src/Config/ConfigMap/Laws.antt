-- ===== src/Config/ConfigMap/Laws.antt =====
-- A ConfigMap with one key for each field, against the environment variables.
use flux_externalsource_cont.Prelude.{
  String, ◌≡◌, refl, ◌≢◌, Option, none, some, [], ◌∷◌, eq_iff, arith,
}
use flux_externalsource_cont.Prelude.Dict.{Dict, lookup}
use flux_externalsource_cont.Config.{
  Config, StorageConfig, HttpConfig, RetryConfig, HooksConfig, MetricsConfig,
}
use flux_externalsource_cont.Config.Floats.{Floats}
use flux_externalsource_cont.Config.Load.{
  Environment, value_or, set_text, set_parsed, load_from_environment, load_storage_from_env,
  load_http_from_env, load_retry_from_env, load_hooks_from_env, load_metrics_from_env,
  load_artifact_server_from_env,
}
use flux_externalsource_cont.Config.ConfigMap.{
  read_text, read_parsed, load_storage_config, load_http_config, load_retry_config,
  load_hooks_config, load_metrics_config, load_values,
}

-- the key that holds what a variable holds; a ConfigMap has none for the path of the PVC backend
-- and for the artifact server
abbrev key_of_variable : Dict String
key_of_variable =
    ("STORAGE_BACKEND", "storage.backend")
    ∷ ("S3_ENDPOINT", "storage.s3.endpoint")
    ∷ ("S3_BUCKET", "storage.s3.bucket")
    ∷ ("S3_REGION", "storage.s3.region")
    ∷ ("S3_ACCESS_KEY_ID", "storage.s3.accessKeyId")
    ∷ ("S3_SECRET_ACCESS_KEY", "storage.s3.secretAccessKey")
    ∷ ("S3_USE_SSL", "storage.s3.useSSL")
    ∷ ("S3_PATH_STYLE", "storage.s3.pathStyle")
    ∷ ("HTTP_TIMEOUT", "http.timeout")
    ∷ ("HTTP_MAX_IDLE_CONNS", "http.maxIdleConns")
    ∷ ("HTTP_MAX_IDLE_CONNS_PER_HOST", "http.maxIdleConnsPerHost")
    ∷ ("HTTP_MAX_CONNS_PER_HOST", "http.maxConnsPerHost")
    ∷ ("HTTP_IDLE_CONN_TIMEOUT", "http.idleConnTimeout")
    ∷ ("HTTP_USER_AGENT", "http.userAgent")
    ∷ ("RETRY_MAX_ATTEMPTS", "retry.maxAttempts")
    ∷ ("RETRY_BASE_DELAY", "retry.baseDelay")
    ∷ ("RETRY_MAX_DELAY", "retry.maxDelay")
    ∷ ("RETRY_JITTER_FACTOR", "retry.jitterFactor")
    ∷ ("HOOK_WHITELIST_PATH", "hooks.whitelistPath")
    ∷ ("HOOK_EXECUTOR_ENDPOINT", "hooks.sidecarEndpoint")
    ∷ ("HOOK_DEFAULT_TIMEOUT", "hooks.defaultTimeout")
    ∷ ("METRICS_ENABLED", "metrics.enabled")
    ∷ ("METRICS_INTERVAL", "metrics.interval")
    ∷ []

abbrev variable_in : Dict String → Option String → String
variable_in d none = ""
variable_in d (some key) = value_or "" (lookup key d)

-- the process whose variables hold what the ConfigMap holds
unfoldable pub as_environment : Environment → Dict String → Environment
unfolding lookup
as_environment env d = record {
  getenv = λ variable. variable_in d (lookup variable key_of_variable);
  parse_bool = env.parse_bool;
  atoi = env.atoi;
  parse_duration = env.parse_duration;
}

text_agrees :
    (value : Option String) (field : String)
    → value ≢ some ""
    → read_text value field ≡ set_text (value_or "" value) field
text_agrees none field h = refl
text_agrees (some value) field h = ground (arith, eq_iff value "")

parsed_agrees {ℓ} :
    {A : Type ℓ} (parse : String → Option A) (value : Option String) (field : A)
    → value ≢ some ""
    → read_parsed parse value field ≡ set_parsed parse (value_or "" value) field
parsed_agrees parse none field h = refl
parsed_agrees parse (some value) field h = ground (arith, eq_iff value "")

module _ (env : Environment) (d : Dict String) (set : (key : String) → lookup key d ≢ some "") where
  text :
      (key field : String)
      → read_text (lookup key d) field ≡ set_text (value_or "" (lookup key d)) field
  text key field = text_agrees (lookup key d) field (set key)

  parsed {ℓ} :
      {A : Type ℓ} (parse : String → Option A) (key : String) (field : A)
      → read_parsed parse (lookup key d) field ≡ set_parsed parse (value_or "" (lookup key d)) field
  parsed parse key field = parsed_agrees parse (lookup key d) field (set key)

  storage_agrees :
      (c : StorageConfig)
      → load_storage_config env d c ≡ load_storage_from_env (as_environment env d) c
  unfolding load_storage_config load_storage_from_env as_environment
  storage_agrees c = λ i. record {
    backend = text "storage.backend" c.backend i;
    s3 = record {
      endpoint = text "storage.s3.endpoint" c.s3.endpoint i;
      bucket = text "storage.s3.bucket" c.s3.bucket i;
      region = text "storage.s3.region" c.s3.region i;
      access_key_id = text "storage.s3.accessKeyId" c.s3.access_key_id i;
      secret_access_key = text "storage.s3.secretAccessKey" c.s3.secret_access_key i;
      use_ssl = parsed env.parse_bool "storage.s3.useSSL" c.s3.use_ssl i;
      path_style = parsed env.parse_bool "storage.s3.pathStyle" c.s3.path_style i;
    };
    pvc = c.pvc;
  }

  http_agrees :
      (c : HttpConfig) → load_http_config env d c ≡ load_http_from_env (as_environment env d) c
  unfolding load_http_config load_http_from_env as_environment
  http_agrees c = λ i. record {
    timeout = parsed env.parse_duration "http.timeout" c.timeout i;
    max_idle_conns = parsed env.atoi "http.maxIdleConns" c.max_idle_conns i;
    max_idle_conns_per_host =
        parsed env.atoi "http.maxIdleConnsPerHost" c.max_idle_conns_per_host i;
    max_conns_per_host = parsed env.atoi "http.maxConnsPerHost" c.max_conns_per_host i;
    idle_conn_timeout = parsed env.parse_duration "http.idleConnTimeout" c.idle_conn_timeout i;
    user_agent = text "http.userAgent" c.user_agent i;
  }

  retry_agrees :
      (f : Floats) (c : RetryConfig f.Float)
      → load_retry_config env d f c ≡ load_retry_from_env (as_environment env d) f c
  unfolding load_retry_config load_retry_from_env as_environment
  retry_agrees f c = λ i. record {
    max_attempts = parsed env.atoi "retry.maxAttempts" c.max_attempts i;
    base_delay = parsed env.parse_duration "retry.baseDelay" c.base_delay i;
    max_delay = parsed env.parse_duration "retry.maxDelay" c.max_delay i;
    jitter_factor = parsed f.parse_float "retry.jitterFactor" c.jitter_factor i;
  }

  hooks_agrees :
      (c : HooksConfig) → load_hooks_config env d c ≡ load_hooks_from_env (as_environment env d) c
  unfolding load_hooks_config load_hooks_from_env as_environment
  hooks_agrees c = λ i. record {
    whitelist_path = text "hooks.whitelistPath" c.whitelist_path i;
    sidecar_endpoint = text "hooks.sidecarEndpoint" c.sidecar_endpoint i;
    default_timeout = parsed env.parse_duration "hooks.defaultTimeout" c.default_timeout i;
  }

  metrics_agrees :
      (c : MetricsConfig)
      → load_metrics_config env d c ≡ load_metrics_from_env (as_environment env d) c
  unfolding load_metrics_config load_metrics_from_env as_environment
  metrics_agrees c = λ i. record {
    enabled = parsed env.parse_bool "metrics.enabled" c.enabled i;
    interval = parsed env.parse_duration "metrics.interval" c.interval i;
  }

  -- If no key of the ConfigMap holds an empty text, then loading its individual values does what
  -- loading the environment would do in a process that has no other variable set, and whose
  -- variables hold the values of the keys of the same meaning, from the same parsers.
  pub load_values-load_from_environment :
      (f : Floats) (c : Config f.Float)
      → load_values env d f c ≡ load_from_environment (as_environment env d) f c
  unfolding load_values load_from_environment as_environment load_artifact_server_from_env
  load_values-load_from_environment f c = λ i. record {
    storage = storage_agrees c.storage i;
    http = http_agrees c.http i;
    retry = retry_agrees f c.retry i;
    hooks = hooks_agrees c.hooks i;
    metrics = metrics_agrees c.metrics i;
    artifact_server = c.artifact_server;
  }
