-- ===== src/Controller/Recovery/Laws.antt =====
-- What a recovery leaves behind.
use flux_externalsource_cont.Prelude.{
  String, ◌≡◌, refl, Bool, true, false, ◌||◌, not, ◌&&◌, Option, none, some, ◌==◌, if◌then◌else◌,
  arith, Option-cases, inl, inr,
}
use flux_externalsource_cont.Prelude.Int.{ℤ}
use flux_externalsource_cont.Api.{ArtifactMetadata, condition_true, condition_false}
use flux_externalsource_cont.Controller.Reconciler.{Reconciler}
use flux_externalsource_cont.Controller.Pass.{Pass}
use flux_externalsource_cont.Controller.Conditions.{
  has_condition, fetching_condition, executing_hooks_condition, storing_condition,
  stalled_condition, ready_condition, succeeded_reason, progressing_reason,
}
use flux_externalsource_cont.Controller.Conditions.Laws.{
  ConditionLaws, Shown, condition_shown, has_condition-shown,
}
use flux_externalsource_cont.Controller.Recovery.{needs_recovery, perform_recovery}

-- the Ready condition of a recovered object
abbrev pub ready_shown : Option ArtifactMetadata → ℤ → Shown
ready_shown none generation = record {
  status = condition_false;
  reason = progressing_reason;
  message = "Starting fresh reconciliation after controller restart";
  observed_generation = generation;
}
ready_shown (some artifact) generation = record {
  status = condition_true;
  reason = succeeded_reason;
  message = "Recovered from controller restart with last successful artifact";
  observed_generation = generation;
}

module _ (r : Reconciler) (laws : ConditionLaws r) where
  -- every condition after a recovery
  shown-perform_recovery :
      (s : Pass r) (t : String)
      → condition_shown r (perform_recovery r s).1 t ≡ (
          if stalled_condition == t
          then none
          else if ready_condition == t
          then some (ready_shown s.source.status.artifact s.source.metadata.generation)
          else if storing_condition == t
          then none
          else if executing_hooks_condition == t
          then none
          else if fetching_condition == t
          then none
          else condition_shown r s t)
  unfolding perform_recovery
  shown-perform_recovery s t = elim (Option-cases s.source.status.artifact) [
    | inl e ↦ rw (e, perform_recovery) (simp (laws.find-remove, laws.find-set))
    | inr (a, e) ↦ rw (e, perform_recovery) (simp (laws.find-remove, laws.find-set))
  ]

  kept_artifact :
      (s : Pass r) → (perform_recovery r s).1.source.status.artifact ≡ s.source.status.artifact
  unfolding perform_recovery
  kept_artifact s = elim (Option-cases s.source.status.artifact) [
    | inl e ↦ rw (e, perform_recovery) refl
    | inr (a, e) ↦ rw (e, perform_recovery) refl
  ]

  -- a condition that a recovery removes
  abbrev is_cleared : String → Bool
  is_cleared t =
      stalled_condition == t
      || (not (ready_condition == t)
          && (storing_condition == t
              || (executing_hooks_condition == t || fetching_condition == t)))

  cleared :
      (s : Pass r) (t : String)
      → is_cleared t ≡ true
      → has_condition r (perform_recovery r s).1 t condition_true ≡ false
  cleared s t h =
      rw
        (
          has_condition-shown r (perform_recovery r s).1 t condition_true,
          shown-perform_recovery s t,
        )
        (ground arith)

  -- Where conditions behave as documented, a recovery is done once: after it, none is needed. It
  -- reports Ready with the artifact that the status had, and not Ready without one; the status
  -- keeps its artifact.
  pub perform_recovery_lem :
      (s : Pass r)
      → (needs_recovery r (perform_recovery r s).1 ≡ false)
        × (condition_shown r (perform_recovery r s).1 ready_condition
            ≡ some (ready_shown s.source.status.artifact s.source.metadata.generation))
        × ((perform_recovery r s).1.source.status.artifact ≡ s.source.status.artifact)
  unfolding needs_recovery
  perform_recovery_lem s = (
    simp
        (
          cleared s fetching_condition refl,
          cleared s executing_hooks_condition refl,
          cleared s storing_condition refl,
          cleared s stalled_condition refl,
        )
        refl,
    shown-perform_recovery s ready_condition,
    kept_artifact s,
  )
