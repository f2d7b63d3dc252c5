-- ===== src/Controller/Reconcile/Laws.antt =====
-- One request of the queue: what it touches, and when the next one comes.
use flux_externalsource_cont.Prelude.{
  ◌≡◌, refl, Bool, true, false, none, Result, ok, err, if◌then◌else◌, inl, inr, ap, Option-cases,
  is_ok, ◌∙◌, sym,
}
use flux_externalsource_cont.Prelude.Int.{ℤ}
use flux_externalsource_cont.Prelude.Actions.{continue, pure, ◌>>=◌}
use flux_externalsource_cont.Api.{ExternalSource, condition_false}
use flux_externalsource_cont.Cluster.{ApiError}
use flux_externalsource_cont.Controller.Reconciler.{Reconciler}
use flux_externalsource_cont.Controller.Pass.{Pass, recorded}
use flux_externalsource_cont.Controller.Pass.Frame.{fixed}
use flux_externalsource_cont.Controller.Conditions.{
  set_ready_condition, suspended_reason, ready_condition,
}
use flux_externalsource_cont.Controller.Conditions.Laws.{ConditionLaws, has_status}
use flux_externalsource_cont.Controller.Retry.{should_reset_retry_count}
use flux_externalsource_cont.Controller.Recovery.{needs_recovery, perform_recovery}
use flux_externalsource_cont.Controller.Fetch.{reconcile}
use flux_externalsource_cont.Controller.Fetch.Frame.{reconcile-Keeps}
use flux_externalsource_cont.Controller.Delete.{
  external_source_finalizer, no_requeue, stored_in, write_status,
}
use flux_externalsource_cont.Controller.Failure.{conclude}
use flux_externalsource_cont.Controller.Failure.Laws.{Reported, seen_generation}
use flux_externalsource_cont.Controller.Reconcile.{run, suspend, reconcile_source}

module _ (r : Reconciler) where
  -- the object with its generation observed
  abbrev pub observed : Pass r → Pass r
  observed s = record s {
    source = record (s.source) {
      status = record (s.source.status) { observed_generation = s.source.metadata.generation };
    };
  }

  -- the state in which `reconcile` starts
  unfoldable pub prepared : Pass r → Pass r
  unfolding perform_recovery
  prepared s =
      if needs_recovery r (observed s) then (perform_recovery r (observed s)).1 else observed s

  -- the state in which the outcome of `reconcile` is looked at
  unfoldable pub concluded : Pass r → Pass r
  unfolding prepared reconcile recorded
  concluded s =
      let source = (reconcile r (prepared s)).1.source in
      (recorded r
        (λ m.
          m.record_reconciliation source.metadata.namespace source.metadata.name
            source.spec.generator.type (is_ok (reconcile r (prepared s)).0))
        (reconcile r (prepared s)).1).1

  perform_recovery-pure : (s : Pass r) → (perform_recovery r s).0 ≡ ok tt
  unfolding perform_recovery
  perform_recovery-pure s = elim (Option-cases s.source.status.artifact) [
    | inl e ↦ rw (e, perform_recovery) refl
    | inr (a, e) ↦ rw (e, perform_recovery) refl
  ]

  recovery-lem :
      (b : Bool) (s : Pass r)
      → (if b then perform_recovery r else pure tt) s
        ≡ (ok tt, if b then (perform_recovery r s).1 else s)
  unfolding pure
  recovery-lem true s = λ i. (perform_recovery-pure s i, (perform_recovery r s).1)
  recovery-lem false s = refl

  perform_recovery-fixed : (s : Pass r) → fixed (perform_recovery r s).1 ≡ fixed s
  unfolding perform_recovery
  perform_recovery-fixed s = elim (Option-cases s.source.status.artifact) [
    | inl e ↦ rw (e, perform_recovery) refl
    | inr (a, e) ↦ rw (e, perform_recovery) refl
  ]

  pub run-conclude :
      (interval : ℤ) (s : Pass r)
      → run r interval s
        ≡ conclude r interval
            (prepared s).source.status.artifact
            (reconcile r (prepared s)).0
            (concluded s)
  unfolding run prepared concluded
  run-conclude interval s = rw (recovery-lem (needs_recovery r (observed s)) (observed s)) refl

  prepared_if-fixed :
      (b : Bool) (s : Pass r) → fixed (if b then (perform_recovery r s).1 else s) ≡ fixed s
  prepared_if-fixed true s = perform_recovery-fixed s
  prepared_if-fixed false s = refl

  concluded-fixed : (s : Pass r) → fixed (concluded s) ≡ fixed (observed s)
  unfolding concluded
  concluded-fixed s =
      reconcile-Keeps (prepared s) ∙ prepared_if-fixed (needs_recovery r (observed s)) (observed s)

  pub concluded-observed :
      (s : Pass r)
      → (concluded s).source.status.observed_generation ≡ (concluded s).source.metadata.generation
  concluded-observed s =
      let kept = concluded-fixed s in ap (λ f. f.2) kept ∙ sym (ap (λ f. f.0.generation) kept)

  -- A pass looks at the outcome of `reconcile` when the object's generation is observed, so the
  -- count of the retries is never reset for a changed spec.
  pub run-never_resets :
      (interval : ℤ) (s : Pass r)
      → (should_reset_retry_count r (concluded s).source ≡ false)
        × (run r interval s
            ≡ conclude r interval
                (prepared s).source.status.artifact
                (reconcile r (prepared s)).0
                (concluded s))
  run-never_resets interval s =
      (seen_generation r (concluded s) (concluded-observed s), run-conclude interval s)

  -- the end of a pass that does nothing but write a status that is not ready
  abbrev pub OnlyReported : Pass r → Pass r → Type 0
  OnlyReported s t =
      (report : Reported r t.world s.source.status.artifact) × (report.world ≡ s.world)
      × (report.object.metadata ≡ s.source.metadata)
      × (report.object.spec ≡ s.source.spec)

  module _ (laws : ConditionLaws r) where
    suspended-lem :
        (s : Pass r)
        → s.source.metadata.deletion_timestamp ≡ none
        → r.contains_finalizer s.source external_source_finalizer ≡ true
        → s.source.spec.suspend ≡ true
        → reconcile_source r s ≡ suspend r s
    unfolding reconcile_source
    suspended-lem s live finalizer suspended = simp (live, finalizer, suspended) refl

    stored_then-world :
        (s : Pass r) (x : Result ApiError ExternalSource × r.World)
        → (continue (stored_in r s x).0 (λ _. pure no_requeue) (stored_in r s x).1).1.world ≡ x.1
    unfolding pure
    stored_then-world s (ok source, w) = refl
    stored_then-world s (err e, w) = refl

    suspend-Reported : (s : Pass r) → OnlyReported s (suspend r s).1
    unfolding suspend write_status set_ready_condition ◌>>=◌
    suspend-Reported s =
        let marked =
          (set_ready_condition r condition_false suspended_reason "ExternalSource is suspended"
            s).1 in
        let report : Reported r (suspend r s).1.world s.source.status.artifact = record {
          object = marked.source;
          world = marked.world;
          written = stored_then-world marked (r.update_source_status marked.source marked.world);
          not_ready =
              ap (λ c. has_status c condition_false)
                (laws.find-set ready_condition _ s.source.status.conditions);
          artifact = refl;
        } in
        (report, refl, refl, refl)

    -- Where conditions behave as documented, a suspended source with its finalizer, and not being
    -- deleted, has its status written as not ready, with the artifact, the metadata and the spec it
    -- had; this write, in the world that the pass starts in, is all that happens to the world.
    pub reconcile_source-suspended :
        (s : Pass r)
        → s.source.metadata.deletion_timestamp ≡ none
        → r.contains_finalizer s.source external_source_finalizer ≡ true
        → s.source.spec.suspend ≡ true
        → OnlyReported s (reconcile_source r s).1
    reconcile_source-suspended s live finalizer suspended =
        rw (suspended-lem s live finalizer suspended) (suspend-Reported s)
