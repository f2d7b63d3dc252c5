-- ===== src/Config/Validate.antt =====
-- `Config.Validate`, and `DefaultConfig`.
pub mod Laws
use Prim.Native.String.{◌++◌}
use flux_externalsource_cont.Prelude.{
  ℕ, ◌*◌, String, Bool, true, false, not, ◌&&◌, ◌||◌, List, [], ◌∷◌, Result, ok, err, ◌==◌,
  if◌then◌else◌,
}
use flux_externalsource_cont.Prelude.Int.{ℤ, pos, ltb_ℤ, leb_ℤ}
use flux_externalsource_cont.Config.{
  Config, StorageConfig, S3Config, PvcConfig, HttpConfig, RetryConfig, HooksConfig, MetricsConfig,
  ArtifactServerConfig,
}
use flux_externalsource_cont.Config.Floats.{Floats}

-- `if test { return fmt.Errorf(message) }`, one after the other
abbrev pub first_error : List (Bool × String) → Result String (Unit {0})
first_error [] = ok tt
first_error ((test, message) ∷ rest) = if test then err message else first_error rest

abbrev pub and_then : Result String (Unit {0}) → Result String (Unit {0}) → Result String (Unit {0})
and_then (ok _) rest = rest
and_then (err e) rest = err e

abbrev pub not_positive : ℤ → Bool
not_positive n = leb_ℤ n (pos 0)

abbrev pub negative : ℤ → Bool
negative n = ltb_ℤ n (pos 0)

unfoldable pub validate_storage : StorageConfig → Result String (Unit {0})
validate_storage c =
    and_then
      (first_error (
        (
          not (c.backend == "s3") && (not (c.backend == "memory") && not (c.backend == "pvc")),
          "invalid storage backend: " ++ c.backend ++ " (must be 's3', 'memory', or 'pvc')",
        )
        ∷ []))
      (and_then
        (if c.backend == "s3"
          then first_error (
              (c.s3.endpoint == "", "S3 endpoint is required when using S3 storage backend")
              ∷ (c.s3.bucket == "", "S3 bucket is required when using S3 storage backend")
              ∷ (
                c.s3.access_key_id == "",
                "S3 access key ID is required when using S3 storage backend",
              )
              ∷ (
                c.s3.secret_access_key == "",
                "S3 secret access key is required when using S3 storage backend",
              )
              ∷ [])
          else ok tt)
        (if c.backend == "pvc"
          then first_error (
              (c.pvc.path == "", "PVC storage path is required when using PVC storage backend")
              ∷ [])
          else ok tt))

unfoldable pub validate_http : HttpConfig → Result String (Unit {0})
validate_http c = first_error (
    (not_positive c.timeout, "HTTP timeout must be positive")
    ∷ (negative c.max_idle_conns, "HTTP max idle connections must be non-negative")
    ∷ (
      negative c.max_idle_conns_per_host,
      "HTTP max idle connections per host must be non-negative",
    )
    ∷ (negative c.max_conns_per_host, "HTTP max connections per host must be non-negative")
    ∷ (not_positive c.idle_conn_timeout, "HTTP idle connection timeout must be positive")
    ∷ [])

unfoldable pub validate_retry : (f : Floats) → RetryConfig f.Float → Result String (Unit {0})
validate_retry f c = first_error (
    (negative c.max_attempts, "retry max attempts must be non-negative")
    ∷ (not_positive c.base_delay, "retry base delay must be positive")
    ∷ (not_positive c.max_delay, "retry max delay must be positive")
    ∷ (ltb_ℤ c.max_delay c.base_delay, "retry base delay must be less than or equal to max delay")
    ∷ (
      f.below_zero c.jitter_factor || f.above_one c.jitter_factor,
      "retry jitter factor must be between 0 and 1",
    )
    ∷ [])

unfoldable pub validate_hooks : HooksConfig → Result String (Unit {0})
validate_hooks c = first_error (
    (c.whitelist_path == "", "hooks whitelist path must be specified")
    ∷ (c.sidecar_endpoint == "", "hooks sidecar endpoint must be specified")
    ∷ (not_positive c.default_timeout, "hooks default timeout must be positive")
    ∷ [])

unfoldable pub validate_rest : MetricsConfig → ArtifactServerConfig → Result String (Unit {0})
validate_rest m c = first_error (
    (not_positive m.interval, "metrics interval must be positive")
    ∷ (
      ltb_ℤ c.port (pos 1) || ltb_ℤ (pos 65535) c.port,
      "artifact server port must be between 1 and 65535",
    )
    ∷ (c.service_name == "", "artifact server service name must be specified")
    ∷ (c.service_namespace == "", "artifact server service namespace must be specified")
    ∷ [])

unfoldable pub validate : (f : Floats) → Config f.Float → Result String (Unit {0})
unfolding validate_storage validate_http validate_retry validate_hooks validate_rest
validate f c = and_then (validate_storage c.storage) (
    and_then (validate_http c.http) (
      and_then (validate_retry f c.retry)
        (and_then (validate_hooks c.hooks) (validate_rest c.metrics c.artifact_server))))

abbrev pub seconds : ℕ → ℤ
seconds n = pos (n * 1_000_000_000)

unfoldable pub default_config : (f : Floats) → Config f.Float
default_config f = record {
  storage = record {
    backend = "memory";
    s3 = record {
      endpoint = "";
      bucket = "";
      region = "us-east-1";
      access_key_id = "";
      secret_access_key = "";
      use_ssl = true;
      path_style = false;
    };
    pvc = record { path = "/data/artifacts" };
  };
  http = record {
    timeout = seconds 30;
    max_idle_conns = pos 100;
    max_idle_conns_per_host = pos 10;
    max_conns_per_host = pos 100;
    idle_conn_timeout = seconds 90;
    user_agent = "externalsource-controller/1.0";
  };
  retry = record {
    max_attempts = pos 10;
    base_delay = seconds 1;
    max_delay = seconds 300;
    jitter_factor = f.quarter;
  };
  hooks = record {
    whitelist_path = "/etc/hooks/whitelist.yaml";
    sidecar_endpoint = "http://localhost:8082";
    default_timeout = seconds 30;
  };
  metrics = record { enabled = true; interval = seconds 15 };
  artifact_server = record {
    enabled = true;
    port = pos 8080;
    service_name = "externalsource-artifacts";
    service_namespace = "flux-system";
  };
}
