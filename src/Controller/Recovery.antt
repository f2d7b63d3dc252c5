-- ===== src/Controller/Recovery.antt =====
-- `needsRecovery` and `performRecovery`: what a restarted controller makes of the conditions that
-- it finds.
pub mod Laws
use flux_externalsource_cont.Prelude.{
  String, Bool, true, false, ◌||◌, Option, none, some, Result, ok, err, if◌then◌else◌,
}
use flux_externalsource_cont.Prelude.Actions.{pure, gets, attempt, ◌>>=◌, ◌>>◌}
use flux_externalsource_cont.Api.{ArtifactMetadata, condition_true, condition_false}
use flux_externalsource_cont.Controller.Reconciler.{Reconciler}
use flux_externalsource_cont.Controller.Pass.{Pass, Act, on_world}
use flux_externalsource_cont.Controller.Conditions.{
  has_condition, clear_progress_conditions, set_ready_condition, remove_condition,
  fetching_condition, executing_hooks_condition, storing_condition, stalled_condition,
  succeeded_reason, progressing_reason,
}
use flux_externalsource_cont.Controller.Publish.{reconcile_external_artifact}

abbrev pub is_some {ℓ} : {A : Type ℓ} → Option A → Bool
is_some none = false
is_some (some a) = true

module _ (r : Reconciler) where
  unfoldable pub needs_recovery : Pass r → Bool
  needs_recovery s =
      if has_condition r s fetching_condition condition_true
        || (has_condition r s executing_hooks_condition condition_true
            || has_condition r s storing_condition condition_true)
      then true
      else if has_condition r s stalled_condition condition_true
      then is_some s.source.status.artifact
      else false

  unfoldable pub recover_artifact : Option ArtifactMetadata → Act r (Unit {0})
  unfolding set_ready_condition on_world ◌>>=◌
  recover_artifact (some status_artifact) = do
    source ← gets (λ s. s.source)
    outcome ← attempt (
        on_world r (
          reconcile_external_artifact r source status_artifact.url status_artifact.revision
            status_artifact.metadata))
    set_ready_condition r condition_true succeeded_reason
        "Recovered from controller restart with last successful artifact"
  recover_artifact none =
      set_ready_condition r condition_false progressing_reason
        "Starting fresh reconciliation after controller restart"

  unfoldable pub perform_recovery : Act r (Unit {0})
  unfolding recover_artifact clear_progress_conditions
  perform_recovery = do
    clear_progress_conditions r
    artifact ← gets (λ s. s.source.status.artifact)
    recover_artifact artifact
    remove_condition r stalled_condition
