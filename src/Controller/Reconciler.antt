-- ===== src/Controller/Reconciler.antt =====
-- ExternalSourceReconciler: the receiver of every method of the controller. Its fields are the
-- components that the controller calls, and what it takes from Kubernetes and the standard
-- library; all act on one `World`.
use flux_externalsource_cont.Prelude.{String, Bool, List, Option, Result}
use flux_externalsource_cont.Prelude.Int.{ℤ}
use flux_externalsource_cont.Api.{Time, Condition, ExternalSource}
use flux_externalsource_cont.Config.{RetryConfig}
use flux_externalsource_cont.Config.Floats.{Floats}
use flux_externalsource_cont.Cluster.{ApiError, ExternalArtifact}
use flux_externalsource_cont.Generator.{SourceGenerator}
use flux_externalsource_cont.Hooks.{HookExecutor}
use flux_externalsource_cont.Artifact.{ArtifactManager}
use flux_externalsource_cont.Metrics.{MetricsRecorder}

pub record Reconciler : Type 1 where
  pub World : Type 0
  -- the API server, by client.Client; a write answers with the stored object
  pub get_source : (namespace name : String) → World → Result ApiError ExternalSource × World
  pub update_source : ExternalSource → World → Result ApiError ExternalSource × World
  pub update_source_status : ExternalSource → World → Result ApiError ExternalSource × World
  pub get_artifact : (namespace name : String) → World → Result ApiError ExternalArtifact × World
  pub create_artifact : ExternalArtifact → World → Result ApiError (Unit {0}) × World
  pub update_artifact_status : ExternalArtifact → World → Result ApiError (Unit {0}) × World
  -- controllerutil
  pub contains_finalizer : ExternalSource → String → Bool
  pub add_finalizer : ExternalSource → String → ExternalSource
  pub remove_finalizer : ExternalSource → String → ExternalSource
  pub set_controller_reference : ExternalSource → ExternalArtifact → Result String ExternalArtifact
  -- apimeta
  pub set_status_condition : Condition → List Condition → List Condition
  pub remove_status_condition : String → List Condition → List Condition
  pub find_status_condition : String → List Condition → Option Condition
  -- package fmt: Sprintf and Sscanf at %d, `none` on an error
  pub print_int : ℤ → String
  pub scan_int : String → Option ℤ
  -- package time: the clock, Duration.String, ParseDuration, and RFC 3339
  pub now : World → Time
  pub duration_string : ℤ → String
  pub parse_duration : String → Result String ℤ
  pub format_rfc3339 : Time → String
  pub parse_rfc3339 : String → Option Time
  -- float64, for the back-off
  pub floats : Floats
  -- the components
  pub create_generator : String → Result String (SourceGenerator World)
  pub hook_executor : HookExecutor World
  pub artifact_manager : ArtifactManager World
  pub metrics_recorder : Option (MetricsRecorder World)
  pub retry : RetryConfig (floats.Float)
