-- ===== src/Controller/Steady/Publishing.antt =====
-- The publication of the child leaves the observation alone.
use flux_externalsource_cont.Prelude.{
  ℕ, zero, suc, ◌+◌, ltb, String, ◌≡◌, Bool, some, Result, ok, err, arith,
}
use flux_externalsource_cont.Prelude.Actions.{Action}
use flux_externalsource_cont.Prelude.Dict.{Dict}
use flux_externalsource_cont.Prelude.Leaves.{Leaves, bind-Leaves, leaves}
use flux_externalsource_cont.Api.{ExternalSource}
use flux_externalsource_cont.Cluster.{ApiError, FluxArtifact, ExternalArtifact}
use flux_externalsource_cont.Controller.Reconciler.{Reconciler}
use flux_externalsource_cont.Controller.Steady.{Unseen}
use flux_externalsource_cont.Controller.Publish.{
  call, new_artifact, max_status_retries, after_verify, after_update, after_get, status_rounds,
  update_status_with_retry, create_published, update_published, publish,
  reconcile_external_artifact,
}

module _ (r : Reconciler) {X : Type 0} (f : r.World → X) (unseen : Unseen r f) where
  call-Leaves :
      {A : Type 0} (m : r.World → Result ApiError A × r.World)
      → ((w : r.World) → f (m w).1 ≡ f w)
      → Leaves f (call m)
  unfolding call
  call-Leaves m k = record { leaves = k }

  get_artifact-Leaves : (namespace name : String) → Leaves f (call (r.get_artifact namespace name))
  get_artifact-Leaves namespace name = call-Leaves _ (unseen.get_artifact namespace name)

  create_artifact-Leaves : (a : ExternalArtifact) → Leaves f (call (r.create_artifact a))
  create_artifact-Leaves a = call-Leaves _ (unseen.create_artifact a)

  update_artifact_status-Leaves :
      (a : ExternalArtifact) → Leaves f (call (r.update_artifact_status a))
  update_artifact_status-Leaves a = call-Leaves _ (unseen.update_artifact_status a)

  ruleset calls =
      (leaves, get_artifact-Leaves, create_artifact-Leaves, update_artifact_status-Leaves)

  module _ (namespace name : String) (artifact : FluxArtifact) where
    module _ (more : Bool) (again : Action r.World (Unit {0})) (k : Leaves f again) where
      after_verify-Leaves :
          (x : Result ApiError ExternalArtifact)
          → Leaves f (after_verify r namespace name artifact more again x)
      unfolding after_verify
      after_verify-Leaves (ok seen) = record { leaves = λ w. ground (arith, k.leaves w) }
      after_verify-Leaves (err e) = record { leaves = λ w. ground (arith, k.leaves w) }

      after_update-Leaves :
          (x : Result ApiError (Unit {0}))
          → Leaves f (after_update r namespace name artifact more again x)
      unfolding after_update
      after_update-Leaves (ok u) = search (calls, after_verify-Leaves)
      after_update-Leaves (err e) = record { leaves = λ w. ground (arith, k.leaves w) }

      after_get-Leaves :
          (x : Result ApiError ExternalArtifact)
          → Leaves f (after_get r namespace name artifact more again x)
      unfolding after_get
      after_get-Leaves (ok created) = search (calls, after_update-Leaves)
      after_get-Leaves (err e) = record { leaves = λ w. ground (arith, k.leaves w) }

    status_rounds-Leaves :
        (rounds i : ℕ) → Leaves f (status_rounds r namespace name artifact rounds i)
    unfolding status_rounds
    status_rounds-Leaves zero i = search calls
    status_rounds-Leaves (suc rounds) i = bind-Leaves _ _ (get_artifact-Leaves namespace name) (
        after_get-Leaves (ltb (i + 1) max_status_retries)
          (status_rounds r namespace name artifact rounds (i + 1))
          (status_rounds-Leaves rounds (i + 1)))

    update_status_with_retry-Leaves : Leaves f (update_status_with_retry r namespace name artifact)
    unfolding update_status_with_retry
    update_status_with_retry-Leaves = status_rounds-Leaves max_status_retries 0

  module _ (source : ExternalSource) (url revision : String) (metadata : Dict String) where
    create_published-Leaves :
        (artifact : FluxArtifact) (owned : Result String ExternalArtifact)
        → Leaves f (create_published r source url revision metadata artifact owned)
    unfolding create_published
    create_published-Leaves artifact (err e) = search calls
    create_published-Leaves artifact (ok owned) =
        let retried =
          update_status_with_retry-Leaves source.metadata.namespace source.metadata.name artifact in
        record {
          leaves = λ w.
              ground (
                arith,
                unseen.create_artifact owned w,
                retried.leaves (r.create_artifact owned w).1,
              );
        }

    update_published-Leaves :
        (artifact : FluxArtifact) (existing : ExternalArtifact)
        → Leaves f (update_published r source url revision metadata artifact existing)
    unfolding update_published
    update_published-Leaves artifact existing = record {
      leaves = λ w.
          ground
            (arith, unseen.update_artifact_status (record existing { artifact = some artifact }) w);
    }

    publish-Leaves :
        (x : Result ApiError ExternalArtifact) (artifact : FluxArtifact)
        → Leaves f (publish r source url revision metadata x artifact)
    unfolding publish
    publish-Leaves (ok existing) artifact = update_published-Leaves artifact existing
    publish-Leaves (err e) artifact = record {
      leaves = λ w. ground (
        arith,
        (create_published-Leaves artifact (
              r.set_controller_reference source
                (new_artifact r source url revision metadata))).leaves
            w,
      );
    }

    pub reconcile_external_artifact-Leaves :
        Leaves f (reconcile_external_artifact r source url revision metadata)
    unfolding reconcile_external_artifact
    reconcile_external_artifact-Leaves = search (calls, publish-Leaves)
