-- ===== src/Controller/Steady/Request.antt =====
-- A request leaves the observation alone between the count of the active reconciliations and its
-- undoing.
use flux_externalsource_cont.Prelude.{
  String, ◌≡◌, ◌∙◌, refl, ap, ◌&&◌, Option, none, some, Result, ok, err, is_ok, arith,
}
use flux_externalsource_cont.Prelude.Int.{ℤ, pos, ltb_ℤ}
use flux_externalsource_cont.Prelude.Actions.{pure}
use flux_externalsource_cont.Prelude.Leaves.{
  pure-Leaves, gets-Leaves, attempt-Leaves, if-Leaves, bind-Leaves,
}
use flux_externalsource_cont.Api.{ArtifactMetadata, ExternalSource}
use flux_externalsource_cont.Cluster.{ApiError}
use flux_externalsource_cont.Controller.Reconciler.{Reconciler}
use flux_externalsource_cont.Controller.Pass.{record_on, recorded}
use flux_externalsource_cont.Controller.Errors.{
  ErrorType, transient_error, permanent_error, configuration_error, classify_error,
}
use flux_externalsource_cont.Controller.Retry.{
  increment_retry_count, clear_retry_count, calculate_retry_delay, should_reset_retry_count,
}
use flux_externalsource_cont.Controller.Recovery.{needs_recovery, perform_recovery}
use flux_externalsource_cont.Controller.Delete.{clean_storage, reconcile_delete}
use flux_externalsource_cont.Controller.Failure.{
  fail_and_retry, report_failure, give_up, is_transient, conclude,
}
use flux_externalsource_cont.Controller.Reconcile.{
  run, run_every, at_least_minute, add_finalizer_and_requeue, suspend, reconcile_source, after_read,
  reconcile_request,
}
use flux_externalsource_cont.Controller.Steady.{
  Unseen, Steady, seen, steady, write_source-Steady, write_status-Steady, change_source-Steady,
  recorded-Steady,
}
use flux_externalsource_cont.Controller.Steady.Fetching.{reconcile-Steady, perform_recovery-Steady}

module _ (r : Reconciler) {X : Type 0} (f : r.World → X) (unseen : Unseen r f) where
  ruleset writing = (steady, write_source-Steady, write_status-Steady)

  increment_retry_count-Steady : (e : String) → Steady r f (increment_retry_count r e)
  unfolding increment_retry_count seen
  increment_retry_count-Steady e = record { leaves = λ s. refl }

  clear_retry_count-Steady : Steady r f (clear_retry_count r)
  unfolding clear_retry_count seen
  clear_retry_count-Steady = record { leaves = λ s. ground arith }

  fail_and_retry-Steady :
      (previous : Option ArtifactMetadata) (delay : ℤ) (e : String)
      → Steady r f (fail_and_retry r previous delay e)
  unfolding fail_and_retry
  fail_and_retry-Steady previous delay e = search (writing, increment_retry_count-Steady) depth 24

  report_failure-Steady : (t : ErrorType) (e : String) → Steady r f (report_failure r t e)
  unfolding report_failure
  report_failure-Steady configuration_error e = search writing
  report_failure-Steady permanent_error e = search writing
  report_failure-Steady transient_error e = search writing

  give_up-Steady : (t : ErrorType) (interval : ℤ) (e : String) → Steady r f (give_up r t interval e)
  unfolding give_up
  give_up-Steady t interval e = search (writing, report_failure-Steady) depth 16

  failed-Steady :
      (interval : ℤ) (previous : Option ArtifactMetadata) (e : String)
      → Steady r f (conclude r interval previous (err e))
  unfolding conclude
  failed-Steady interval previous e =
      bind-Leaves _ _ (gets-Leaves (λ s. should_reset_retry_count r s.source)) (λ reset.
        bind-Leaves _ _
          (if-Leaves reset (clear_retry_count r) (pure tt) clear_retry_count-Steady
            (pure-Leaves tt))
          (λ _. bind-Leaves _ _ (gets-Leaves (λ s. calculate_retry_delay r s.source e)) (λ delay.
            if-Leaves (ltb_ℤ (pos 0) delay && is_transient r (classify_error e))
              (fail_and_retry r previous delay e) (give_up r (classify_error e) interval e)
              (fail_and_retry-Steady previous delay e)
              (give_up-Steady (classify_error e) interval e))))

  conclude-Steady :
      (interval : ℤ) (previous : Option ArtifactMetadata) (x : Result String (Unit {0}))
      → Steady r f (conclude r interval previous x)
  unfolding conclude
  conclude-Steady interval previous (ok u) = search (writing, clear_retry_count-Steady) depth 16
  conclude-Steady interval previous (err e) = failed-Steady interval previous e

  reconciliation-Steady :
      (source : ExternalSource) (outcome : Result String (Unit {0}))
      → Steady r f (
          recorded r (λ m.
            m.record_reconciliation source.metadata.namespace source.metadata.name
              source.spec.generator.type
              (is_ok outcome)))
  reconciliation-Steady source outcome = recorded-Steady r f _ (
      unseen.record_reconciliation source.metadata.namespace source.metadata.name
        source.spec.generator.type (is_ok outcome))

  run-Steady : (interval : ℤ) → Steady r f (run r interval)
  unfolding run
  run-Steady interval = bind-Leaves _ _ (change_source-Steady r f _) (λ _.
      bind-Leaves _ _ (gets-Leaves (needs_recovery r)) (λ recovering.
        bind-Leaves _ _
          (if-Leaves recovering (perform_recovery r) (pure tt) (perform_recovery-Steady r f unseen)
            (pure-Leaves tt))
          (λ _. bind-Leaves _ _ (gets-Leaves (λ s. s.source.status.artifact)) (λ previous.
            bind-Leaves _ _ (attempt-Leaves _ (reconcile-Steady r f unseen)) (λ outcome.
              bind-Leaves _ _ (gets-Leaves (λ s. s.source)) (λ source.
                bind-Leaves _ _ (reconciliation-Steady source outcome)
                  (λ _. conclude-Steady interval previous outcome)))))))

  run_every-Steady : (x : Result String ℤ) → Steady r f (run_every r x)
  unfolding run_every
  run_every-Steady (ok interval) = run-Steady (at_least_minute r interval)
  run_every-Steady (err e) = search writing depth 16

  add_finalizer_and_requeue-Steady : Steady r f (add_finalizer_and_requeue r)
  unfolding add_finalizer_and_requeue
  add_finalizer_and_requeue-Steady = search writing depth 16

  suspend-Steady : Steady r f (suspend r)
  unfolding suspend
  suspend-Steady = search writing depth 16

  clean_storage-Steady : (x : Option ArtifactMetadata) → Steady r f (clean_storage r x)
  unfolding clean_storage
  clean_storage-Steady none = search writing
  clean_storage-Steady (some artifact) = search (writing, unseen.cleanup) depth 16

  reconcile_delete-Steady : Steady r f (reconcile_delete r)
  unfolding reconcile_delete
  reconcile_delete-Steady = search (writing, clean_storage-Steady) depth 16

  reconcile_source-Steady : Steady r f (reconcile_source r)
  unfolding reconcile_source seen
  reconcile_source-Steady = record {
    leaves = λ s. ground (
      arith,
      reconcile_delete-Steady.leaves s,
      add_finalizer_and_requeue-Steady.leaves s,
      suspend-Steady.leaves s,
      (run_every-Steady (r.parse_duration s.source.spec.interval)).leaves s,
    );
  }

  after_read-Steady :
      (x : Result ApiError ExternalSource) (w : r.World) → f (after_read r (x, w)).1 ≡ f w
  unfolding seen
  after_read-Steady (ok source) w =
      reconcile_source-Steady.leaves (record { source = source; world = w })
  after_read-Steady (err e) w = refl

  module _ (up down : X → X) (namespace name : String) where
    -- A request that counts itself among the active ones by `up` and takes itself back by `down`
    -- leaves the number as it was, if the other components do not touch it, however it ends.
    pub reconcile_request-restores :
        ((w : r.World)
          → f (record_on r r.metrics_recorder (λ m. m.inc_active_reconciliations namespace name) w)
            ≡ up (f w))
        → ((w : r.World)
            → f (
                record_on r r.metrics_recorder (λ m. m.dec_active_reconciliations namespace name) w)
              ≡ down (f w))
        → ((x : X) → down (up x) ≡ x)
        → (w : r.World) → f (reconcile_request r namespace name w).1 ≡ f w
    unfolding reconcile_request
    reconcile_request-restores counted uncounted undone w =
        let v =
          record_on r r.metrics_recorder (λ m. m.inc_active_reconciliations namespace name) w in
        let (x, u) = r.get_source namespace name v in
        uncounted (after_read r (x, u)).1
        ∙ ap down (after_read-Steady x u ∙ unseen.get_source namespace name v ∙ counted w)
        ∙ undone (f w)
