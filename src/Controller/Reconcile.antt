-- ===== src/Controller/Reconcile.antt =====
-- `Reconcile`: one request of the work queue, from the object's read to the requeue.
pub mod Laws
pub mod Bounds
use Prim.Native.String.{◌++◌}
use flux_externalsource_cont.Prelude.{
  ℕ, suc, ◌-◌, ◌%◌, ◌*◌, String, Bool, true, false, not, ◌&&◌, Option, none, some, Result, ok, err,
  is_ok, if◌then◌else◌,
}
use flux_externalsource_cont.Prelude.Int.{ℤ, pos, negsuc, sub_ℕ, ◌+ℤ◌, ltb_ℤ, wrap64}
use flux_externalsource_cont.Prelude.Actions.{Action, pure, raise, gets, attempt, ◌>>=◌, ◌>>◌}
use flux_externalsource_cont.Api.{
  ExternalSource, ArtifactMetadata, Time, condition_true, condition_false,
}
use flux_externalsource_cont.Cluster.{ApiError, message, is_not_found}
use flux_externalsource_cont.Controller.Reconciler.{Reconciler}
use flux_externalsource_cont.Controller.Pass.{
  Pass, Act, on_world, recorded, record_on, update_status, change_source,
}
use flux_externalsource_cont.Controller.Conditions.{
  set_condition, set_ready_condition, stalled_condition, failed_reason, suspended_reason,
}
use flux_externalsource_cont.Controller.Errors.{
  ErrorType, transient_error, permanent_error, configuration_error, classify_error,
}
use flux_externalsource_cont.Controller.Retry.{
  calculate_retry_delay, get_retry_count, increment_retry_count, clear_retry_count,
  get_backoff_duration, should_reset_retry_count,
}
use flux_externalsource_cont.Controller.Recovery.{needs_recovery, perform_recovery}
use flux_externalsource_cont.Controller.Fetch.{reconcile, source_key}
use flux_externalsource_cont.Controller.Delete.{
  external_source_finalizer, RequeueResult, no_requeue, after, write_status, write_source,
  reconcile_delete,
}
use flux_externalsource_cont.Controller.Failure.{second, conclude}

abbrev pub minute : ℤ
minute = pos (60 * second)

module _ (r : Reconciler) where
  unfoldable pub run : ℤ → Act r RequeueResult
  unfolding perform_recovery reconcile recorded conclude update_status
  run interval = do
    change_source r (λ source. record source {
      status = record (source.status) { observed_generation = source.metadata.generation };
    })
    recovering ← gets (needs_recovery r)
    if recovering then perform_recovery r else pure tt
    previous ← gets (λ s. s.source.status.artifact)
    outcome ← attempt (reconcile r)
    source ← gets (λ s. s.source)
    recorded r (λ m.
        m.record_reconciliation source.metadata.namespace source.metadata.name
          source.spec.generator.type (is_ok outcome))
    conclude r interval previous outcome

  -- the spec's interval, at least a minute
  abbrev pub at_least_minute : ℤ → ℤ
  at_least_minute interval = if ltb_ℤ interval minute then minute else interval

  unfoldable pub run_every : Result String ℤ → Act r RequeueResult
  unfolding run write_status set_ready_condition
  run_every (ok interval) = run (at_least_minute interval)
  run_every (err e) = do
    set_ready_condition r condition_false failed_reason ("Invalid interval: " ++ e)
    write_status r
    pure no_requeue

  unfoldable pub add_finalizer_and_requeue : Act r RequeueResult
  unfolding write_source change_source
  add_finalizer_and_requeue = do
    change_source r (λ source. r.add_finalizer source external_source_finalizer)
    write_source r
    pure (record { requeue = true; requeue_after = pos 0 })

  unfoldable pub suspend : Act r RequeueResult
  unfolding set_ready_condition write_status
  suspend = do
    set_ready_condition r condition_false suspended_reason "ExternalSource is suspended"
    write_status r
    pure no_requeue

  abbrev pub is_set : Option Time → Bool
  is_set none = false
  is_set (some t) = true

  -- the object has been read
  unfoldable pub reconcile_source : Act r RequeueResult
  unfolding reconcile_delete add_finalizer_and_requeue suspend run_every
  reconcile_source s =
      if is_set s.source.metadata.deletion_timestamp
      then reconcile_delete r s
      else if not (r.contains_finalizer s.source external_source_finalizer)
      then add_finalizer_and_requeue s
      else if s.source.spec.suspend
      then suspend s
      else run_every (r.parse_duration s.source.spec.interval) s

  abbrev pub after_read :
      Result ApiError ExternalSource × r.World → Result String RequeueResult × r.World
  after_read (ok source, w) =
      let (x, s) = reconcile_source (record { source = source; world = w }) in (x, s.world)
  after_read (err e, w) = (if is_not_found e then ok no_requeue else err (message e), w)

  unfoldable pub reconcile_request :
      (namespace name : String) → r.World → Result String RequeueResult × r.World
  unfolding reconcile_source
  reconcile_request namespace name w =
      let (x, w') = after_read (
        r.get_source namespace name
          (record_on r r.metrics_recorder (λ m. m.inc_active_reconciliations namespace name) w)) in
      (x, record_on r r.metrics_recorder (λ m. m.dec_active_reconciliations namespace name) w')
