-- ===== src/Controller/Reconcile/Bounds.antt =====
-- When the next pass comes.
use flux_externalsource_cont.Prelude.{
  String, ◌≡◌, Option, Result, ok, err, arith, ◌⊎◌, inl, inr, ap, ◌∙◌, sym, subst,
}
use flux_externalsource_cont.Prelude.Int.{ℤ, pos, ◌<ℤ◌, ◌≤ℤ◌, ltb_ℤ}
use flux_externalsource_cont.Prelude.Actions.{continue-ok, pure}
use flux_externalsource_cont.Api.{ExternalSource, ArtifactMetadata}
use flux_externalsource_cont.Controller.Reconciler.{Reconciler}
use flux_externalsource_cont.Controller.Pass.{Pass}
use flux_externalsource_cont.Controller.Errors.{classify_error}
use flux_externalsource_cont.Controller.Retry.{get_retry_count, clear_retry_count}
use flux_externalsource_cont.Controller.Retry.Laws.{calculate_retry_delay_iff}
use flux_externalsource_cont.Controller.Delete.{RequeueResult, no_requeue, write_status}
use flux_externalsource_cont.Controller.Failure.{conclude}
use flux_externalsource_cont.Controller.Failure.Laws.{conclude-requeue, requeue_for}
use flux_externalsource_cont.Controller.Reconcile.{minute, at_least_minute, run_every}
use flux_externalsource_cont.Controller.Reconcile.Laws.{concluded, concluded-observed, run-conclude}

module _ (r : Reconciler) where
  -- when the next pass comes: not before a minute, or the base delay of the back-off
  abbrev pub NotBefore : RequeueResult → Type 0
  NotBefore x =
      (x ≡ no_requeue) ⊎ ((minute ≤ℤ x.requeue_after) ⊎ (r.retry.base_delay ≤ℤ x.requeue_after))

  requeue_for-NotBefore :
      (interval : ℤ) (source : ExternalSource) (e : String)
      → pos 0 <ℤ r.retry.base_delay
      → minute ≤ℤ interval
      → NotBefore (
          requeue_for r interval source e
            (ltb_ℤ (get_retry_count r source) r.retry.max_attempts)
            (classify_error e))
  requeue_for-NotBefore interval source e positive long =
      let delays = (calculate_retry_delay_iff r source e positive).1 in
      let within = (calculate_retry_delay_iff r source e positive).0 in
      ground (arith, delays, within)

  ok_inj : {x y : RequeueResult} (s s' : Pass r) → pure x s ≡ (ok y, s') → x ≡ y
  unfolding pure
  ok_inj s s' h = cc

  conclude_ok-NotBefore :
      (interval : ℤ) (previous : Option ArtifactMetadata) (s s' : Pass r) (x : RequeueResult)
      → minute ≤ℤ interval
      → conclude r interval previous (ok tt) s ≡ (ok x, s')
      → NotBefore x
  unfolding conclude pure
  conclude_ok-NotBefore interval previous s s' x long h =
      let (_, _, written) = continue-ok (clear_retry_count r s).0 _ (clear_retry_count r s).1 h in
      let (_, _, answer) = continue-ok (write_status r _).0 _ (write_status r _).1 written in
      subst NotBefore (ok_inj _ _ answer) (inr (inl long))

  result_inj : {x y : RequeueResult} → Path (Result String RequeueResult) (ok x) (ok y) → x ≡ y
  result_inj h = cc

  conclude_err-NotBefore :
      (interval : ℤ) (previous : Option ArtifactMetadata) (e : String) (s s' : Pass r)
      (x : RequeueResult)
      → pos 0 <ℤ r.retry.base_delay
      → minute ≤ℤ interval
      → s.source.status.observed_generation ≡ s.source.metadata.generation
      → conclude r interval previous (err e) s ≡ (ok x, s')
      → NotBefore x
  conclude_err-NotBefore interval previous e s s' x positive long seen h =
      subst NotBefore
        (result_inj
          (sym (conclude-requeue r interval previous e s positive seen) ∙ ap (λ p. p.0) h))
        (requeue_for-NotBefore interval s.source e positive long)

  conclude-NotBefore :
      (interval : ℤ) (previous : Option ArtifactMetadata) (outcome : Result String (Unit {0}))
      (s s' : Pass r) (x : RequeueResult)
      → pos 0 <ℤ r.retry.base_delay
      → minute ≤ℤ interval
      → s.source.status.observed_generation ≡ s.source.metadata.generation
      → conclude r interval previous outcome s ≡ (ok x, s')
      → NotBefore x
  conclude-NotBefore interval previous (ok _) s s' x positive long seen h =
      conclude_ok-NotBefore interval previous s s' x long h
  conclude-NotBefore interval previous (err e) s s' x positive long seen h =
      conclude_err-NotBefore interval previous e s s' x positive long seen h

  minute-le-at_least_minute : (interval : ℤ) → minute ≤ℤ at_least_minute r interval
  minute-le-at_least_minute interval = ground arith

  -- With a positive base delay, and whatever the interval in the spec, a pass that returns
  -- without an error comes back after a minute or more, after the base delay of the back-off or
  -- more, or is not requeued.
  pub run_every-NotBefore :
      (interval : ℤ) (s s' : Pass r) (x : RequeueResult)
      → pos 0 <ℤ r.retry.base_delay
      → run_every r (ok interval) s ≡ (ok x, s')
      → NotBefore x
  unfolding run_every
  run_every-NotBefore interval s s' x positive h =
      conclude-NotBefore (at_least_minute r interval) _ _ (concluded r s) s' x positive
        (minute-le-at_least_minute interval) (concluded-observed r s)
        (sym (run-conclude r (at_least_minute r interval) s) ∙ h)
