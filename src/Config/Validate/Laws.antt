-- ===== src/Config/Validate/Laws.antt =====
-- The configurations that are accepted.
use flux_externalsource_cont.Prelude.{
  String, ◌≡◌, ◌≢◌, refl, ◌↔◌, ◌⊎◌, false, Result, ok, err, eq_iff, arith,
}
use flux_externalsource_cont.Prelude.Int.{pos, ◌≤ℤ◌, ◌<ℤ◌}
use flux_externalsource_cont.Config.{
  Config, StorageConfig, HttpConfig, RetryConfig, HooksConfig, MetricsConfig, ArtifactServerConfig,
}
use flux_externalsource_cont.Config.Floats.{Floats}
use flux_externalsource_cont.Config.Validate.{
  and_then, validate_storage, validate_http, validate_retry, validate_hooks, validate_rest,
  validate,
}

-- the backend is one of three, with what it needs
abbrev pub StorageIsValid : StorageConfig → Type 0
StorageIsValid c =
    (c.backend ≡ "memory")
    ⊎ (((c.backend ≡ "pvc") × (c.pvc.path ≢ ""))
        ⊎ ((c.backend ≡ "s3")
            × (c.s3.endpoint ≢ "")
            × (c.s3.bucket ≢ "")
            × (c.s3.access_key_id ≢ "")
            × (c.s3.secret_access_key ≢ "")))

abbrev pub HttpIsValid : HttpConfig → Type 0
HttpIsValid c =
    (pos 0 <ℤ c.timeout)
    × (pos 0 ≤ℤ c.max_idle_conns)
    × (pos 0 ≤ℤ c.max_idle_conns_per_host)
    × (pos 0 ≤ℤ c.max_conns_per_host)
    × (pos 0 <ℤ c.idle_conn_timeout)

abbrev pub RetryIsValid : (f : Floats) → RetryConfig f.Float → Type 0
RetryIsValid f c =
    (pos 0 ≤ℤ c.max_attempts)
    × (pos 0 <ℤ c.base_delay)
    × (c.base_delay ≤ℤ c.max_delay)
    × (f.below_zero c.jitter_factor ≡ false)
    × (f.above_one c.jitter_factor ≡ false)

abbrev pub HooksAreValid : HooksConfig → Type 0
HooksAreValid c = (c.whitelist_path ≢ "") × (c.sidecar_endpoint ≢ "") × (pos 0 <ℤ c.default_timeout)

abbrev pub ServerIsValid : ArtifactServerConfig → Type 0
ServerIsValid c =
    (pos 1 ≤ℤ c.port) × (c.port ≤ℤ pos 65535) × (c.service_name ≢ "") × (c.service_namespace ≢ "")

memory-ne-pvc : ◌≢◌ {A = String} "memory" "pvc"
memory-ne-pvc e = ground (arith, eq_iff "memory" "pvc")

memory-ne-s3 : ◌≢◌ {A = String} "memory" "s3"
memory-ne-s3 e = ground (arith, eq_iff "memory" "s3")

pvc-ne-s3 : ◌≢◌ {A = String} "pvc" "s3"
pvc-ne-s3 e = ground (arith, eq_iff "pvc" "s3")

validate_storage_iff : (c : StorageConfig) → (validate_storage c ≡ ok tt) ↔ StorageIsValid c
unfolding validate_storage
validate_storage_iff c = ground (
  arith,
  memory-ne-pvc,
  memory-ne-s3,
  pvc-ne-s3,
  eq_iff c.backend "s3",
  eq_iff c.backend "memory",
  eq_iff c.backend "pvc",
  eq_iff c.pvc.path "",
  eq_iff c.s3.endpoint "",
  eq_iff c.s3.bucket "",
  eq_iff c.s3.access_key_id "",
  eq_iff c.s3.secret_access_key "",
)

validate_http_iff : (c : HttpConfig) → (validate_http c ≡ ok tt) ↔ HttpIsValid c
unfolding validate_http
validate_http_iff c = ground arith

validate_retry_iff :
    (f : Floats) (c : RetryConfig f.Float) → (validate_retry f c ≡ ok tt) ↔ RetryIsValid f c
unfolding validate_retry
validate_retry_iff f c = ground arith

validate_hooks_iff : (c : HooksConfig) → (validate_hooks c ≡ ok tt) ↔ HooksAreValid c
unfolding validate_hooks
validate_hooks_iff c = ground (arith, eq_iff c.whitelist_path "", eq_iff c.sidecar_endpoint "")

validate_rest_iff :
    (m : MetricsConfig) (c : ArtifactServerConfig)
    → (validate_rest m c ≡ ok tt) ↔ ((pos 0 <ℤ m.interval) × ServerIsValid c)
unfolding validate_rest
validate_rest_iff m c = ground (arith, eq_iff c.service_name "", eq_iff c.service_namespace "")

err-ne-ok : {e : String} → Path (Result String (Unit {0})) (err e) (ok tt) → ⊥
err-ne-ok h = cc

and_then_iff :
    {P Q : Type 0} (x y : Result String (Unit {0}))
    → (x ≡ ok tt) ↔ P
    → (y ≡ ok tt) ↔ Q
    → (and_then x y ≡ ok tt) ↔ (P × Q)
and_then_iff (ok _) y p q = (λ h. (p.0 refl, q.0 h), λ h. q.1 h.1)
and_then_iff (err e) y p q = (λ h. absurd (cc), λ h. absurd (err-ne-ok (p.1 h.0)))

-- what a configuration must be
abbrev pub IsValid : (f : Floats) → Config f.Float → Type 0
IsValid f c =
    StorageIsValid c.storage
    × (HttpIsValid c.http
        × (RetryIsValid f c.retry
            × (HooksAreValid c.hooks
                × ((pos 0 <ℤ c.metrics.interval) × ServerIsValid c.artifact_server))))

-- `Validate` accepts exactly the configurations whose backend is one of the three with what it
-- needs, whose delays, timeouts and intervals are positive, whose counts are not negative, whose
-- base delay is at most the maximum, whose port is a port, and whose names are set.
pub validate_iff : (f : Floats) (c : Config f.Float) → (validate f c ≡ ok tt) ↔ IsValid f c
unfolding validate
validate_iff f c = and_then_iff _ _ (validate_storage_iff c.storage) (
    and_then_iff _ _ (validate_http_iff c.http) (
      and_then_iff _ _ (validate_retry_iff f c.retry) (
        and_then_iff _ _ (validate_hooks_iff c.hooks)
          (validate_rest_iff c.metrics c.artifact_server))))
