-- ===== src/Metrics/Prometheus.antt =====
-- internal/metrics/prometheus.go. The vectors of the client library are parameters, which act on
-- the world; what a histogram observes is a duration, no argument here. Registering the vectors is
-- the library's.
use flux_externalsource_cont.Prelude.{String, Bool, List, [], ◌∷◌, if◌then◌else◌}
use flux_externalsource_cont.Metrics.{MetricsRecorder}

-- a vector: its name and the names of its labels; the help text and the buckets are left out
pub record Vec : Type 0 where
  pub name : String
  pub labels : List String

-- CounterVec.Inc, HistogramVec.Observe, GaugeVec.Inc and GaugeVec.Dec, at WithLabelValues
pub record Vectors (W : Type 0) : Type 0 where
  pub inc_counter : Vec → List String → W → W
  pub observe : Vec → List String → W → W
  pub inc_gauge : Vec → List String → W → W
  pub dec_gauge : Vec → List String → W → W

pub record PrometheusRecorder : Type 0 where
  pub reconciliation_total : Vec
  pub reconciliation_duration : Vec
  pub source_request_total : Vec
  pub source_request_duration : Vec
  pub hook_execution_total : Vec
  pub hook_execution_duration : Vec
  pub artifact_operation_total : Vec
  pub artifact_operation_duration : Vec
  pub active_reconciliations : Vec

abbrev pub new_prometheus_recorder : PrometheusRecorder
new_prometheus_recorder =
    let reconciliation = "namespace" ∷ "name" ∷ "source_type" ∷ "success" ∷ [] in
    let source_request = "source_type" ∷ "success" ∷ [] in
    let hook_execution = "hook_name" ∷ "retry_policy" ∷ "success" ∷ [] in
    let artifact_operation = "operation" ∷ "success" ∷ [] in
    record {
      reconciliation_total = record {
        name = "externalsource_reconciliation_total";
        labels = reconciliation;
      };
      reconciliation_duration = record {
        name = "externalsource_reconciliation_duration_seconds";
        labels = reconciliation;
      };
      source_request_total = record {
        name = "externalsource_source_request_total";
        labels = source_request;
      };
      source_request_duration = record {
        name = "externalsource_source_request_duration_seconds";
        labels = source_request;
      };
      hook_execution_total = record {
        name = "externalsource_hook_execution_total";
        labels = hook_execution;
      };
      hook_execution_duration = record {
        name = "externalsource_hook_execution_duration_seconds";
        labels = hook_execution;
      };
      artifact_operation_total = record {
        name = "externalsource_artifact_operation_total";
        labels = artifact_operation;
      };
      artifact_operation_duration = record {
        name = "externalsource_artifact_operation_duration_seconds";
        labels = artifact_operation;
      };
      active_reconciliations = record {
        name = "externalsource_active_reconciliations";
        labels = "namespace" ∷ "name" ∷ [];
      };
    }

abbrev pub success_label : Bool → String
success_label success = if success then "true" else "false"

module _ {W : Type 0} (vectors : Vectors W) (r : PrometheusRecorder) where
  -- a count and an observation under the same labels
  abbrev pub measure : Vec → Vec → List String → W → W
  measure total duration labels w =
      vectors.observe duration labels (vectors.inc_counter total labels w)

  unfoldable pub metrics_of : MetricsRecorder W
  metrics_of = record {
    record_reconciliation = λ namespace name source_type success.
        measure r.reconciliation_total r.reconciliation_duration
          (namespace ∷ name ∷ source_type ∷ success_label success ∷ []);
    record_source_request = λ source_type success.
        measure r.source_request_total r.source_request_duration
          (source_type ∷ success_label success ∷ []);
    record_hook_execution = λ hook_name retry_policy success.
        measure r.hook_execution_total r.hook_execution_duration
          (hook_name ∷ retry_policy ∷ success_label success ∷ []);
    record_artifact_operation = λ operation success.
        measure r.artifact_operation_total r.artifact_operation_duration
          (operation ∷ success_label success ∷ []);
    inc_active_reconciliations =
        λ namespace name. vectors.inc_gauge r.active_reconciliations (namespace ∷ name ∷ []);
    dec_active_reconciliations =
        λ namespace name. vectors.dec_gauge r.active_reconciliations (namespace ∷ name ∷ []);
  }
