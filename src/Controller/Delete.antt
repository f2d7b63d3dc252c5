-- ===== src/Controller/Delete.antt =====
-- `reconcileDelete`, and what a write of the object to the API server leaves.
pub mod Laws
use Prim.Native.String.{◌++◌}
use flux_externalsource_cont.Prelude.{
  ℕ, suc, ◌-◌, ◌%◌, ◌*◌, String, Bool, true, false, not, ◌&&◌, Option, none, some, Result, ok, err,
  is_ok, if◌then◌else◌,
}
use flux_externalsource_cont.Prelude.Int.{ℤ, pos, negsuc, sub_ℕ, ◌+ℤ◌, ltb_ℤ, wrap64}
use flux_externalsource_cont.Prelude.Actions.{Action, pure, raise, gets, attempt, ◌>>=◌, ◌>>◌}
use flux_externalsource_cont.Api.{
  ExternalSource, ArtifactMetadata, Time, condition_true, condition_false,
}
use flux_externalsource_cont.Cluster.{ApiError, message, is_not_found}
use flux_externalsource_cont.Controller.Reconciler.{Reconciler}
use flux_externalsource_cont.Controller.Pass.{
  Pass, Act, on_world, recorded, record_on, update_status, change_source,
}
use flux_externalsource_cont.Controller.Conditions.{
  set_condition, set_ready_condition, stalled_condition, failed_reason, suspended_reason,
}
use flux_externalsource_cont.Controller.Errors.{
  ErrorType, transient_error, permanent_error, configuration_error, classify_error,
}
use flux_externalsource_cont.Controller.Retry.{
  calculate_retry_delay, get_retry_count, increment_retry_count, clear_retry_count,
  get_backoff_duration, should_reset_retry_count,
}
use flux_externalsource_cont.Controller.Recovery.{needs_recovery, perform_recovery}
use flux_externalsource_cont.Controller.Fetch.{reconcile, source_key}

-- ctrl.Result
pub record RequeueResult : Type 0 where
  pub requeue : Bool
  pub requeue_after : ℤ

abbrev pub no_requeue : RequeueResult
no_requeue = record { requeue = false; requeue_after = pos 0 }

abbrev pub after : ℤ → RequeueResult
after delay = record { requeue = false; requeue_after = delay }

abbrev pub external_source_finalizer : String
external_source_finalizer = "source.flux.oddkin.co/externalsource-finalizer"

module _ (r : Reconciler) where
  -- `r.Update(ctx, externalSource)` and `r.Status().Update(ctx, externalSource)`: the answer of
  -- the server takes the object's place.
  abbrev pub stored_in :
      Pass r → Result ApiError ExternalSource × r.World → Result String (Unit {0}) × Pass r
  stored_in s (ok stored, w) = (ok tt, record { source = stored; world = w })
  stored_in s (err e, w) = (err (message e), record s { world = w })

  unfoldable pub write_source : Act r (Unit {0})
  write_source s = stored_in s (r.update_source s.source s.world)

  unfoldable pub write_status : Act r (Unit {0})
  write_status s = stored_in s (r.update_source_status s.source s.world)

  unfoldable pub clean_storage : Option ArtifactMetadata → Act r (Unit {0})
  unfolding on_world ◌>>=◌
  clean_storage none = pure tt
  clean_storage (some artifact) = do
    source ← gets (λ s. s.source)
    cleaned ← attempt (on_world r (r.artifact_manager.cleanup (source_key r source) ""))
    pure tt

  unfoldable pub reconcile_delete : Act r RequeueResult
  unfolding clean_storage write_source change_source
  reconcile_delete = do
    artifact ← gets (λ s. s.source.status.artifact)
    clean_storage artifact
    change_source r (λ source. r.remove_finalizer source external_source_finalizer)
    write_source
    pure no_requeue
