-- ===== src/Controller/Failure.antt =====
-- The end of `Reconcile`: what it makes of the outcome of `reconcile`.
pub mod Laws
use Prim.Native.String.{◌++◌}
use flux_externalsource_cont.Prelude.{
  ℕ, suc, ◌-◌, ◌%◌, ◌*◌, String, Bool, true, false, not, ◌&&◌, Option, none, some, Result, ok, err,
  is_ok, if◌then◌else◌,
}
use flux_externalsource_cont.Prelude.Int.{ℤ, pos, negsuc, sub_ℕ, ◌+ℤ◌, ltb_ℤ, wrap64}
use flux_externalsource_cont.Prelude.Actions.{Action, pure, raise, gets, attempt, ◌>>=◌, ◌>>◌}
use flux_externalsource_cont.Api.{
  ExternalSource, ArtifactMetadata, Time, condition_true, condition_false,
}
use flux_externalsource_cont.Cluster.{ApiError, message, is_not_found}
use flux_externalsource_cont.Controller.Reconciler.{Reconciler}
use flux_externalsource_cont.Controller.Pass.{
  Pass, Act, on_world, recorded, record_on, update_status, change_source,
}
use flux_externalsource_cont.Controller.Conditions.{
  set_condition, set_ready_condition, stalled_condition, failed_reason, suspended_reason,
}
use flux_externalsource_cont.Controller.Errors.{
  ErrorType, transient_error, permanent_error, configuration_error, classify_error,
}
use flux_externalsource_cont.Controller.Retry.{
  calculate_retry_delay, get_retry_count, increment_retry_count, clear_retry_count,
  get_backoff_duration, should_reset_retry_count,
}
use flux_externalsource_cont.Controller.Recovery.{needs_recovery, perform_recovery}
use flux_externalsource_cont.Controller.Fetch.{reconcile, source_key}
use flux_externalsource_cont.Controller.Delete.{RequeueResult, no_requeue, after, write_status}

abbrev pub second : ℕ
second = 1_000_000_000

-- Duration.Truncate: towards zero
unfoldable pub truncate : ℤ → ℕ → ℤ
truncate (pos n) m = pos (n - n % m)
truncate (negsuc n) m = sub_ℕ 0 (suc n - suc n % m)

module _ (r : Reconciler) where
  -- the message of a failure that is retried
  abbrev pub retry_message : Pass r → ℤ → String → String
  retry_message s retry_delay e =
      "Reconciliation failed (attempt "
      ++ r.print_int (wrap64 (get_retry_count r s.source +ℤ pos 1))
      ++ "/"
      ++ r.print_int r.retry.max_attempts
      ++ ", in backoff for "
      ++ r.duration_string (truncate (get_backoff_duration r s) second)
      ++ "), retrying in "
      ++ r.duration_string (truncate retry_delay second)
      ++ ". Last successful artifact maintained: "
      ++ e

  abbrev pub maintain : Option ArtifactMetadata → ExternalSource → ExternalSource
  maintain none source = source
  maintain (some previous) source = record source {
    status = record (source.status) { artifact = some previous };
  }

  -- a transient failure with attempts left
  unfoldable pub fail_and_retry : Option ArtifactMetadata → ℤ → String → Act r RequeueResult
  unfolding set_ready_condition increment_retry_count write_status change_source truncate ◌>>=◌
  fail_and_retry previous retry_delay e = do
    message ← gets (λ s. retry_message s retry_delay e)
    change_source r (maintain previous)
    set_ready_condition r condition_false failed_reason message
    increment_retry_count r e
    written ← attempt (write_status r)
    pure (after retry_delay)

  -- the reason and the message of a failure that is not, and the mark of a stalled object
  unfoldable pub report_failure : ErrorType → String → Act r (Unit {0})
  unfolding set_ready_condition set_condition ◌>>=◌
  report_failure configuration_error e =
      set_ready_condition r condition_false "ConfigurationError"
        ("Configuration error (will not retry until spec changes): " ++ e)
  report_failure permanent_error e =
      set_ready_condition r condition_false "PermanentError"
        ("Permanent error (will not retry): " ++ e)
  report_failure transient_error e =
      let message =
        "Max retries exceeded (" ++ r.print_int r.retry.max_attempts ++ " attempts): " ++ e in
      do
        set_condition r stalled_condition condition_true "MaxRetriesExceeded" message
        set_ready_condition r condition_false "MaxRetriesExceeded" message

  abbrev pub requeue_unless_configuration : ErrorType → ℤ → RequeueResult
  requeue_unless_configuration configuration_error interval = no_requeue
  requeue_unless_configuration permanent_error interval = after interval
  requeue_unless_configuration transient_error interval = after interval

  unfoldable pub give_up : ErrorType → ℤ → String → Act r RequeueResult
  unfolding report_failure write_status
  give_up error_type interval e = do
    report_failure error_type e
    written ← attempt (write_status r)
    pure (requeue_unless_configuration error_type interval)

  abbrev pub is_transient : ErrorType → Bool
  is_transient transient_error = true
  is_transient _ = false

  -- what `Reconcile` does with the outcome of `reconcile`
  unfoldable pub conclude :
      ℤ → Option ArtifactMetadata → Result String (Unit {0}) → Act r RequeueResult
  unfolding fail_and_retry give_up clear_retry_count
  conclude interval previous (ok _) = do clear_retry_count r; write_status r; pure (after interval)
  conclude interval previous (err e) = do
    reset ← gets (λ s. should_reset_retry_count r s.source)
    if reset then clear_retry_count r else pure tt
    retry_delay ← gets (λ s. calculate_retry_delay r s.source e)
    if ltb_ℤ (pos 0) retry_delay && is_transient (classify_error e)
        then fail_and_retry previous retry_delay e
        else give_up (classify_error e) interval e
