-- ===== src/Metrics.antt =====
-- internal/metrics/interface.go, and the recorder of noop.go. A recorder acts on the world; the durations that it is given are
-- clock readings of that world, and no argument here.
pub mod Prometheus
use flux_externalsource_cont.Prelude.{String, Bool}

pub record MetricsRecorder (W : Type 0) : Type 0 where
  pub record_reconciliation : (namespace name source_type : String) (success : Bool) → W → W
  pub record_source_request : (source_type : String) (success : Bool) → W → W
  pub record_hook_execution : (hook_name retry_policy : String) (success : Bool) → W → W
  pub record_artifact_operation : (operation : String) (success : Bool) → W → W
  pub inc_active_reconciliations : (namespace name : String) → W → W
  pub dec_active_reconciliations : (namespace name : String) → W → W

unfoldable pub new_no_op_recorder : {W : Type 0} → MetricsRecorder W
new_no_op_recorder = record {
  record_reconciliation = λ namespace name source_type success w. w;
  record_source_request = λ source_type success w. w;
  record_hook_execution = λ hook_name retry_policy success w. w;
  record_artifact_operation = λ operation success w. w;
  inc_active_reconciliations = λ namespace name w. w;
  dec_active_reconciliations = λ namespace name w. w;
}
