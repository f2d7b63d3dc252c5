-- ===== src/Config/ConfigMap.antt =====
-- internal/config/configmap.go: the configuration that a ConfigMap holds, under one key as JSON or
-- under one key for each field.
pub mod Laws
use Prim.Native.String.{◌++◌}
use flux_externalsource_cont.Prelude.{String, Bool, Option, none, some, Result, ok, err, map_err}
use flux_externalsource_cont.Prelude.Dict.{Dict, lookup}
use flux_externalsource_cont.Prelude.Actions.{Action, pure, wrap}
use flux_externalsource_cont.Config.{
  Config, StorageConfig, HttpConfig, RetryConfig, HooksConfig, MetricsConfig,
}
use flux_externalsource_cont.Config.Floats.{Floats}
use flux_externalsource_cont.Config.Load.{Environment, value_or}

-- `json.Unmarshal` into a configuration, which may be written in part before an error.
abbrev pub Unmarshal : Type 0 → Type 0
Unmarshal F = String → Action (Config F) (Unit {0})

-- The Kubernetes client's read of a ConfigMap's data.
abbrev pub Client : Type 0
Client = (namespace name : String) → Result String (Dict String)

pub record ConfigMapLoader : Type 0 where
  pub client : Client
  pub namespace : String
  pub name : String

unfoldable pub new_config_map_loader : Client → (namespace name : String) → ConfigMapLoader
new_config_map_loader k8s_client namespace name = record {
  client = k8s_client;
  namespace = namespace;
  name = name;
}

-- `if v, exists := data[key]; exists { field = v }`
abbrev pub read_text : Option String → String → String
read_text value field = value_or field value

-- `if v, exists := data[key]; exists { if parsed, err := parse(v); err == nil { field = parsed } }`
abbrev pub read_parsed {ℓ} : {A : Type ℓ} → (String → Option A) → Option String → A → A
read_parsed parse none field = field
read_parsed parse (some value) field = value_or field (parse value)

-- The loader uses the parsers of `Environment`, not the variables.
module _ (env : Environment) (d : Dict String) where
  unfoldable pub load_storage_config : StorageConfig → StorageConfig
  load_storage_config c = record {
    backend = read_text (lookup "storage.backend" d) c.backend;
    s3 = record {
      endpoint = read_text (lookup "storage.s3.endpoint" d) c.s3.endpoint;
      bucket = read_text (lookup "storage.s3.bucket" d) c.s3.bucket;
      region = read_text (lookup "storage.s3.region" d) c.s3.region;
      access_key_id = read_text (lookup "storage.s3.accessKeyId" d) c.s3.access_key_id;
      secret_access_key = read_text (lookup "storage.s3.secretAccessKey" d) c.s3.secret_access_key;
      use_ssl = read_parsed env.parse_bool (lookup "storage.s3.useSSL" d) c.s3.use_ssl;
      path_style = read_parsed env.parse_bool (lookup "storage.s3.pathStyle" d) c.s3.path_style;
    };
    pvc = c.pvc;
  }

  unfoldable pub load_http_config : HttpConfig → HttpConfig
  load_http_config c = record {
    timeout = read_parsed env.parse_duration (lookup "http.timeout" d) c.timeout;
    max_idle_conns = read_parsed env.atoi (lookup "http.maxIdleConns" d) c.max_idle_conns;
    max_idle_conns_per_host =
        read_parsed env.atoi (lookup "http.maxIdleConnsPerHost" d) c.max_idle_conns_per_host;
    max_conns_per_host =
        read_parsed env.atoi (lookup "http.maxConnsPerHost" d) c.max_conns_per_host;
    idle_conn_timeout =
        read_parsed env.parse_duration (lookup "http.idleConnTimeout" d) c.idle_conn_timeout;
    user_agent = read_text (lookup "http.userAgent" d) c.user_agent;
  }

  unfoldable pub load_retry_config : (f : Floats) → RetryConfig f.Float → RetryConfig f.Float
  load_retry_config f c = record {
    max_attempts = read_parsed env.atoi (lookup "retry.maxAttempts" d) c.max_attempts;
    base_delay = read_parsed env.parse_duration (lookup "retry.baseDelay" d) c.base_delay;
    max_delay = read_parsed env.parse_duration (lookup "retry.maxDelay" d) c.max_delay;
    jitter_factor = read_parsed f.parse_float (lookup "retry.jitterFactor" d) c.jitter_factor;
  }

  unfoldable pub load_hooks_config : HooksConfig → HooksConfig
  load_hooks_config c = record {
    whitelist_path = read_text (lookup "hooks.whitelistPath" d) c.whitelist_path;
    sidecar_endpoint = read_text (lookup "hooks.sidecarEndpoint" d) c.sidecar_endpoint;
    default_timeout =
        read_parsed env.parse_duration (lookup "hooks.defaultTimeout" d) c.default_timeout;
  }

  unfoldable pub load_metrics_config : MetricsConfig → MetricsConfig
  load_metrics_config c = record {
    enabled = read_parsed env.parse_bool (lookup "metrics.enabled" d) c.enabled;
    interval = read_parsed env.parse_duration (lookup "metrics.interval" d) c.interval;
  }

  -- the individual values, all of which are optional
  unfoldable pub load_values : (f : Floats) → Config f.Float → Config f.Float
  unfolding load_storage_config load_http_config load_retry_config load_hooks_config
      load_metrics_config
  load_values f c = record {
    storage = load_storage_config c.storage;
    http = load_http_config c.http;
    retry = load_retry_config f c.retry;
    hooks = load_hooks_config c.hooks;
    metrics = load_metrics_config c.metrics;
    artifact_server = c.artifact_server;
  }

module _ (env : Environment) (f : Floats) (unmarshal : Unmarshal f.Float) where
  -- the two forms, by what `data["config.json"]` holds
  abbrev pub load_form : Option String → Dict String → Action (Config f.Float) (Unit {0})
  load_form (some json) d = wrap (λ e. "failed to parse JSON configuration: " ++ e) (unmarshal json)
  load_form none d = λ c. (ok tt, load_values env d f c)

  unfoldable pub load_from_data : Dict String → Action (Config f.Float) (Unit {0})
  unfolding wrap load_values
  load_from_data d = load_form (lookup "config.json" d) d

  abbrev pub load_data :
      Result String (Dict String) → (at : String) → Action (Config f.Float) (Unit {0})
  load_data (err e) at = λ c. (err (("failed to get ConfigMap " ++ at) ++ (": " ++ e)), c)
  load_data (ok d) at =
      wrap (λ e. "failed to load configuration from ConfigMap: " ++ e) (load_from_data d)

  unfoldable pub load_config_map : ConfigMapLoader → Action (Config f.Float) (Unit {0})
  unfolding load_from_data wrap
  load_config_map l = load_data (l.client l.namespace l.name) (l.namespace ++ ("/" ++ l.name))
