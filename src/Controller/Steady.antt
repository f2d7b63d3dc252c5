-- ===== src/Controller/Steady.antt =====
-- What the methods of the reconciler do to an observation of the world that the components leave
-- alone: nothing. Here the operations on the object and its status.
pub mod Publishing
pub mod Hooks
pub mod Fetching
pub mod Request
use flux_externalsource_cont.Prelude.{String, ◌≡◌, ◌∙◌, refl, Bool, Result, ok, err}
use flux_externalsource_cont.Prelude.Actions.{Action}
use flux_externalsource_cont.Prelude.Leaves.{Leaves, leaves}
use flux_externalsource_cont.Api.{ExternalSource, ExternalSourceStatus, ConditionStatus}
use flux_externalsource_cont.Cluster.{ApiError, ExternalArtifact}
use flux_externalsource_cont.Generator.{SourceGenerator, GeneratorConfig, Bytes}
use flux_externalsource_cont.Api.{HookSpec}
use flux_externalsource_cont.Artifact.{Artifact}
use flux_externalsource_cont.Metrics.{MetricsRecorder}
use flux_externalsource_cont.Controller.Reconciler.{Reconciler}
use flux_externalsource_cont.Controller.Pass.{
  Pass, Act, on_world, recorded, record_on, update_status, change_source,
}
use flux_externalsource_cont.Controller.Conditions.{
  set_condition, remove_condition, set_ready_condition, set_progress_condition,
  clear_progress_conditions,
}
use flux_externalsource_cont.Controller.Delete.{stored_in, write_source, write_status}

module _ (r : Reconciler) {X : Type 0} (f : r.World → X) where
  -- the metrics that count something, but not those of the active reconciliations
  abbrev Quiet : (MetricsRecorder r.World → r.World → r.World) → Type 0
  Quiet g = (w : r.World) → f (record_on r r.metrics_recorder g w) ≡ f w

  -- No component that the controller calls changes what `f` sees.
  pub record Unseen : Type 0 where
    pub get_source :
        (namespace name : String) (w : r.World) → f (r.get_source namespace name w).1 ≡ f w
    pub update_source : (s : ExternalSource) (w : r.World) → f (r.update_source s w).1 ≡ f w
    pub update_source_status :
        (s : ExternalSource) (w : r.World) → f (r.update_source_status s w).1 ≡ f w
    pub get_artifact :
        (namespace name : String) (w : r.World) → f (r.get_artifact namespace name w).1 ≡ f w
    pub create_artifact : (a : ExternalArtifact) (w : r.World) → f (r.create_artifact a w).1 ≡ f w
    pub update_artifact_status :
        (a : ExternalArtifact) (w : r.World) → f (r.update_artifact_status a w).1 ≡ f w
    pub generate :
        (t : String) (g : SourceGenerator r.World)
        → r.create_generator t ≡ ok g
        → (c : GeneratorConfig) → Leaves f (g.generate c)
    pub get_last_modified :
        (t : String) (g : SourceGenerator r.World)
        → r.create_generator t ≡ ok g
        → (c : GeneratorConfig) → Leaves f (g.get_last_modified c)
    pub execute : (input : Bytes) (hook : HookSpec) → Leaves f (r.hook_executor.execute input hook)
    pub package_data :
        (bytes : Bytes) (path : String) → Leaves f (r.artifact_manager.package_data bytes path)
    pub store : (a : Artifact) (key : String) → Leaves f (r.artifact_manager.store a key)
    pub cleanup : (key keep : String) → Leaves f (r.artifact_manager.cleanup key keep)
    pub record_reconciliation :
        (namespace name t : String) (b : Bool)
        → Quiet (λ m. m.record_reconciliation namespace name t b)
    pub record_source_request : (t : String) (b : Bool) → Quiet (λ m. m.record_source_request t b)
    pub record_hook_execution :
        (name policy : String) (b : Bool) → Quiet (λ m. m.record_hook_execution name policy b)
    pub record_artifact_operation :
        (operation : String) (b : Bool) → Quiet (λ m. m.record_artifact_operation operation b)

  unfoldable pub seen : Pass r → X
  seen s = f s.world

  -- a method of the controller that does not change what `f` sees
  abbrev pub Steady : {A : Type 0} → Act r A → Type 0
  Steady m = Leaves seen m

  pub on_world-Steady : {A : Type 0} (m : Action r.World A) → Leaves f m → Steady (on_world r m)
  unfolding on_world seen
  on_world-Steady m k = record { leaves = λ s. k.leaves s.world }

  pub recorded-Steady :
      (g : MetricsRecorder r.World → r.World → r.World) → Quiet g → Steady (recorded r g)
  unfolding recorded seen
  recorded-Steady g k = record { leaves = λ s. k s.world }

  pub update_status-Steady :
      (g : ExternalSourceStatus → ExternalSourceStatus) → Steady (update_status r g)
  unfolding update_status seen
  update_status-Steady g = record { leaves = λ s. refl }

  pub change_source-Steady : (g : ExternalSource → ExternalSource) → Steady (change_source r g)
  unfolding change_source seen
  change_source-Steady g = record { leaves = λ s. refl }

  pub set_condition-Steady :
      (t : String) (status : ConditionStatus) (reason message : String)
      → Steady (set_condition r t status reason message)
  unfolding set_condition seen
  set_condition-Steady t status reason message = record { leaves = λ s. refl }

  pub remove_condition-Steady : (t : String) → Steady (remove_condition r t)
  unfolding remove_condition seen
  remove_condition-Steady t = record { leaves = λ s. refl }

  pub set_ready_condition-Steady :
      (status : ConditionStatus) (reason message : String)
      → Steady (set_ready_condition r status reason message)
  unfolding set_ready_condition seen
  set_ready_condition-Steady status reason message = record { leaves = λ s. refl }

  pub set_progress_condition-Steady :
      (t : String) (b : Bool) (reason message : String)
      → Steady (set_progress_condition r t b reason message)
  unfolding set_progress_condition seen
  set_progress_condition-Steady t b reason message = record { leaves = λ s. refl }

  pub clear_progress_conditions-Steady : Steady (clear_progress_conditions r)
  unfolding clear_progress_conditions seen
  clear_progress_conditions-Steady = record { leaves = λ s. refl }

  stored_in-Steady :
      (s : Pass r) (x : Result ApiError ExternalSource × r.World)
      → f (stored_in r s x).1.world ≡ f x.1
  stored_in-Steady s (ok stored, w) = refl
  stored_in-Steady s (err e, w) = refl

  module _ (unseen : Unseen) where
    pub write_source-Steady : Steady (write_source r)
    unfolding write_source seen
    write_source-Steady = record {
      leaves = λ s. stored_in-Steady s _ ∙ unseen.update_source s.source s.world;
    }

    pub write_status-Steady : Steady (write_status r)
    unfolding write_status seen
    write_status-Steady = record {
      leaves = λ s. stored_in-Steady s _ ∙ unseen.update_source_status s.source s.world;
    }

pub ruleset steady = (
  leaves, on_world-Steady, recorded-Steady, update_status-Steady, change_source-Steady,
  set_condition-Steady, remove_condition-Steady, set_ready_condition-Steady,
  set_progress_condition-Steady, clear_progress_conditions-Steady,
)
