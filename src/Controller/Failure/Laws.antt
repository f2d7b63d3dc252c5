-- ===== src/Controller/Failure/Laws.antt =====
-- What a failed pass requeues, and what it reports.
use flux_externalsource_cont.Prelude.{
  none, some, String, ◌≡◌, refl, Bool, true, false, ◌&&◌, Option, Result, ok, err, if◌then◌else◌,
  arith,
}
use flux_externalsource_cont.Prelude.Int.{ℤ, pos, ◌<ℤ◌, ltb_ℤ}
use flux_externalsource_cont.Prelude.Actions.{pure}
use flux_externalsource_cont.Api.{ExternalSource, ArtifactMetadata, condition_false}
use flux_externalsource_cont.Cluster.{ApiError}
use flux_externalsource_cont.Controller.Reconciler.{Reconciler}
use flux_externalsource_cont.Controller.Pass.{Pass, Act}
use flux_externalsource_cont.Controller.Conditions.{set_ready_condition, ready_condition}
use flux_externalsource_cont.Controller.Conditions.Laws.{ConditionLaws, condition_shown, has_status}
use flux_externalsource_cont.Controller.Errors.{
  ErrorType, transient_error, permanent_error, configuration_error, classify_error,
}
use flux_externalsource_cont.Controller.Retry.{
  calculate_retry_delay, get_retry_count, increment_retry_count, should_reset_retry_count,
}
use flux_externalsource_cont.Controller.Retry.Laws.{calculate_retry_delay_iff}
use flux_externalsource_cont.Controller.Delete.{
  RequeueResult, no_requeue, after, stored_in, write_status,
}
use flux_externalsource_cont.Controller.Failure.{
  fail_and_retry, give_up, conclude, is_transient, maintain, requeue_unless_configuration,
}

-- the artifact from before a pass, if there was one, and else the one that there is
abbrev pub previous_or {ℓ} : {A : Type ℓ} → Option A → Option A → Option A
previous_or none current = current
previous_or (some previous) current = some previous

module _ (r : Reconciler) where
  fail_and_retry-requeue :
      (previous : Option ArtifactMetadata) (delay : ℤ) (e : String) (s : Pass r)
      → (fail_and_retry r previous delay e s).0 ≡ ok (after delay)
  unfolding fail_and_retry
  fail_and_retry-requeue previous delay e s = refl

  give_up-requeue :
      (t : ErrorType) (interval : ℤ) (e : String) (s : Pass r)
      → (give_up r t interval e s).0 ≡ ok (requeue_unless_configuration r t interval)
  unfolding give_up
  give_up-requeue transient_error interval e s = refl
  give_up-requeue permanent_error interval e s = refl
  give_up-requeue configuration_error interval e s = refl

  -- a transient failure with attempts left
  abbrev pub retries : ExternalSource → String → Bool
  retries source e =
      ltb_ℤ (pos 0) (calculate_retry_delay r source e) && is_transient r (classify_error e)

  conclude-err :
      (interval : ℤ) (previous : Option ArtifactMetadata) (e : String) (s : Pass r)
      → should_reset_retry_count r s.source ≡ false
      → conclude r interval previous (err e) s
        ≡ (if retries s.source e
              then fail_and_retry r previous (calculate_retry_delay r s.source e) e
              else give_up r (classify_error e) interval e)
            s
  unfolding conclude pure
  conclude-err interval previous e s kept = rw (kept, conclude) refl

  -- what a failed pass requeues: a transient failure within the allowed attempts the delay of the
  -- back-off, another one the interval, and a configuration error nothing
  abbrev pub requeue_for : ℤ → ExternalSource → String → Bool → ErrorType → RequeueResult
  requeue_for interval source e within transient_error =
      if within then after (calculate_retry_delay r source e) else after interval
  requeue_for interval source e within permanent_error = after interval
  requeue_for interval source e within configuration_error = no_requeue

  pub seen_generation :
      (s : Pass r)
      → s.source.status.observed_generation ≡ s.source.metadata.generation
      → should_reset_retry_count r s.source ≡ false
  unfolding should_reset_retry_count
  seen_generation s seen = ground arith

  requeue-cases :
      (interval : ℤ) (previous : Option ArtifactMetadata) (e : String) (s : Pass r)
      → pos 0 <ℤ r.retry.base_delay
      → ((if retries s.source e
            then fail_and_retry r previous (calculate_retry_delay r s.source e) e
            else give_up r (classify_error e) interval e)
          s).0
        ≡ ok (
            requeue_for interval s.source e
              (ltb_ℤ (get_retry_count r s.source) r.retry.max_attempts)
              (classify_error e))
  requeue-cases interval previous e s positive =
      let delays = (calculate_retry_delay_iff r s.source e positive).0 in
      ground (
        arith,
        delays,
        fail_and_retry-requeue previous (calculate_retry_delay r s.source e) e s,
        give_up-requeue (classify_error e) interval e s,
      )

  -- With a positive base delay, and the generation observed, a failed pass returns no error of
  -- its own: it requeues after the back-off's delay for a transient failure while the count is
  -- below the allowed attempts, after the interval for one beyond them and for a permanent error,
  -- and not at all for a configuration error.
  pub conclude-requeue :
      (interval : ℤ) (previous : Option ArtifactMetadata) (e : String) (s : Pass r)
      → pos 0 <ℤ r.retry.base_delay
      → s.source.status.observed_generation ≡ s.source.metadata.generation
      → (conclude r interval previous (err e) s).0
        ≡ ok (
            requeue_for interval s.source e
              (ltb_ℤ (get_retry_count r s.source) r.retry.max_attempts)
              (classify_error e))
  conclude-requeue interval previous e s positive seen =
      rw (conclude-err interval previous e s (seen_generation s seen))
        (requeue-cases interval previous e s positive)

  pub stored_in-world :
      (s : Pass r) (x : Result ApiError ExternalSource × r.World) → (stored_in r s x).1.world ≡ x.1
  stored_in-world s (ok source, w) = refl
  stored_in-world s (err e, w) = refl

  pub write_status-world :
      (s : Pass r) → (write_status r s).1.world ≡ (r.update_source_status s.source s.world).1
  unfolding write_status
  write_status-world s = stored_in-world s _

  -- the status that a failed pass writes: the object, when it was written, and what it shows
  pub record Reported (w' : r.World) (kept : Option ArtifactMetadata) : Type 0 where
    pub object : ExternalSource
    pub world : r.World
    pub written : w' ≡ (r.update_source_status object world).1
    pub not_ready :
        has_status
          (condition_shown r (record { source = object; world = world }) ready_condition)
          condition_false
        ≡ true
    pub artifact : object.status.artifact ≡ kept

  artifact-maintain :
      (previous : Option ArtifactMetadata) (source : ExternalSource)
      → (maintain r previous source).status.artifact ≡ previous_or previous source.status.artifact
  artifact-maintain none source = refl
  artifact-maintain (some previous) source = refl

  module _ (laws : ConditionLaws r) where
    fail_and_retry-Reported :
        (previous : Option ArtifactMetadata) (delay : ℤ) (e : String) (s : Pass r)
        → Reported
            (fail_and_retry r previous delay e s).1.world
            (previous_or previous s.source.status.artifact)
    unfolding fail_and_retry increment_retry_count set_ready_condition
    fail_and_retry-Reported previous delay e s = record {
      object = _;
      world = _;
      written = write_status-world _;
      not_ready = rw laws.find-set refl;
      artifact = artifact-maintain previous s.source;
    }

    give_up-Reported :
        (t : ErrorType) (interval : ℤ) (e : String) (s : Pass r)
        → Reported (give_up r t interval e s).1.world s.source.status.artifact
    unfolding give_up
    give_up-Reported transient_error interval e s = record {
      object = _;
      world = _;
      written = write_status-world _;
      not_ready = rw laws.find-set refl;
      artifact = refl;
    }
    give_up-Reported permanent_error interval e s = record {
      object = _;
      world = _;
      written = write_status-world _;
      not_ready = rw laws.find-set refl;
      artifact = refl;
    }
    give_up-Reported configuration_error interval e s = record {
      object = _;
      world = _;
      written = write_status-world _;
      not_ready = rw laws.find-set refl;
      artifact = refl;
    }

    chosen :
        (b : Bool) (s : Pass r) (m n : Act r RequeueResult) (x y : Option ArtifactMetadata)
        → Reported (m s).1.world x
        → Reported (n s).1.world y
        → Reported ((if b then m else n) s).1.world (if b then x else y)
    chosen true s m n x y k l = k
    chosen false s m n x y k l = l

    -- Where conditions behave as documented, and with the generation observed, a failed pass
    -- writes a status that is not ready, whatever the class of its error. A transient failure
    -- that is retried puts the artifact from before the pass back, if there was one; every other
    -- failure leaves the artifact that the pass has set.
    pub conclude-Reported :
        (interval : ℤ) (previous : Option ArtifactMetadata) (e : String) (s : Pass r)
        → s.source.status.observed_generation ≡ s.source.metadata.generation
        → Reported (conclude r interval previous (err e) s).1.world (
            if retries s.source e
            then previous_or previous s.source.status.artifact
            else s.source.status.artifact)
    conclude-Reported interval previous e s seen =
        rw (conclude-err interval previous e s (seen_generation s seen)) (
          chosen (retries s.source e) s _ _ _ _ (fail_and_retry-Reported previous _ e s)
            (give_up-Reported (classify_error e) interval e s))
