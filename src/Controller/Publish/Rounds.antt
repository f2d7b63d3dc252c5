-- ===== src/Controller/Publish/Rounds.antt =====
-- How often one publication writes the child's status.
use flux_externalsource_cont.Prelude.{
  ℕ, zero, suc, ◌+◌, ◌≤◌, String, ◌≡◌, Bool, some, Result, ok, err, Bool-cases, Result-cases, inl,
  inr, arith, ltb,
}
use flux_externalsource_cont.Prelude.Actions.{Action}
use flux_externalsource_cont.Prelude.Dict.{Dict}
use flux_externalsource_cont.Api.{ExternalSource}
use flux_externalsource_cont.Cluster.{ApiError, FluxArtifact, ExternalArtifact}
use flux_externalsource_cont.Controller.Reconciler.{Reconciler}
use flux_externalsource_cont.Controller.Publish.{
  needs_update, after_verify, after_update, after_get, status_rounds, update_status_with_retry,
  create_published, update_published, publish, reconcile_external_artifact, max_status_retries,
  flux_artifact, new_artifact,
}

module _ (r : Reconciler) (count : r.World → ℕ) where
  -- `count` counts the writes of a child's status in a world.
  pub record CountsUpdates : Type 0 where
    pub update :
        (a : ExternalArtifact) (w : r.World) → count (r.update_artifact_status a w).1 ≡ count w + 1
    pub get :
        (namespace name : String) (w : r.World)
        → count (r.get_artifact namespace name w).1 ≡ count w
    pub create : (a : ExternalArtifact) (w : r.World) → count (r.create_artifact a w).1 ≡ count w

  -- an action that writes at most `n` times
  abbrev Writes : ℕ → Action r.World (Unit {0}) → Type 0
  Writes n m = (w : r.World) → count (m w).1 ≤ count w + n

  module _ (counts : CountsUpdates) where
    module _ (namespace name : String) (artifact : FluxArtifact) where
      after_verify-Writes :
          (more : Bool) (n : ℕ) (again : Action r.World (Unit {0}))
          (seen : Result ApiError ExternalArtifact)
          → Writes n again
          → Writes n (after_verify r namespace name artifact more again seen)
      unfolding after_verify
      after_verify-Writes more n again (ok a) h w = ground (arith, h w)
      after_verify-Writes more n again (err e) h w = ground (arith, h w)

      after_update-Writes :
          (more : Bool) (n : ℕ) (again : Action r.World (Unit {0}))
          (updated : Result ApiError (Unit {0}))
          → Writes n again
          → Writes n (after_update r namespace name artifact more again updated)
      unfolding after_update
      after_update-Writes more n again (ok x) h w =
          let (seen, v) = r.get_artifact namespace name w in
          omega (arith, after_verify-Writes more n again seen h v, counts.get namespace name w)
      after_update-Writes more n again (err e) h w = ground (arith, h w)

      after_get-Writes :
          (more : Bool) (n : ℕ) (again : Action r.World (Unit {0}))
          (got : Result ApiError ExternalArtifact)
          → Writes n again
          → Writes (suc n) (after_get r namespace name artifact more again got)
      unfolding after_get
      after_get-Writes more n again (ok a) h w =
          let written = record a { artifact = some artifact } in
          let (updated, v) = r.update_artifact_status written w in
          omega (arith, after_update-Writes more n again updated h v, counts.update written w)
      after_get-Writes more n again (err e) h w = ground (arith, h w)

      status_rounds-Writes :
          (rounds i : ℕ) → Writes rounds (status_rounds r namespace name artifact rounds i)
      unfolding status_rounds
      status_rounds-Writes zero i w = omega arith
      status_rounds-Writes (suc rounds) i w =
          let (got, v) = r.get_artifact namespace name w in
          omega (
            arith,
            counts.get namespace name w,
            after_get-Writes (ltb (i + 1) max_status_retries) rounds
                (status_rounds r namespace name artifact rounds (i + 1)) got
                (status_rounds-Writes rounds (i + 1)) v,
          )

    module _ (source : ExternalSource) (url revision : String) (metadata : Dict String) where
      create_published-Writes :
          (artifact : FluxArtifact) (owned : Result String ExternalArtifact)
          → Writes 10 (create_published r source url revision metadata artifact owned)
      unfolding create_published
      create_published-Writes artifact (err e) w = omega arith
      create_published-Writes artifact (ok owned) w =
          let made = counts.create owned w in
          elim (Result-cases (r.create_artifact owned w).0) [
            | inl (_, good) ↦
                unfold update_status_with_retry in
                rw (good, create_published)
                  (omega (
                    arith,
                    made,
                    status_rounds-Writes source.metadata.namespace source.metadata.name artifact
                        max_status_retries 0 (r.create_artifact owned w).1,
                  ))
            | inr (m, bad) ↦ rw (bad, create_published) (omega (arith, made))
          ]

      update_published-Writes :
          (artifact : FluxArtifact) (existing : ExternalArtifact)
          → Writes 10 (update_published r source url revision metadata artifact existing)
      unfolding update_published
      update_published-Writes artifact existing w =
          let written = record existing { artifact = some artifact } in
          let once = counts.update written w in
          elim (Bool-cases (needs_update existing.artifact url revision metadata)) [
            | inr same ↦ rw (same, update_published) (omega arith)
            | inl stale ↦ elim (Result-cases (r.update_artifact_status written w).0) [
              | inl (_, good) ↦ rw (stale, update_published) (rw good (omega (arith, once)))
              | inr (m, bad) ↦ rw (stale, update_published) (rw bad (omega (arith, once)))
            ]
          ]

      publish-Writes :
          (got : Result ApiError ExternalArtifact) (artifact : FluxArtifact)
          → Writes 10 (publish r source url revision metadata got artifact)
      unfolding publish
      publish-Writes (ok existing) artifact w = update_published-Writes artifact existing w
      publish-Writes (err e) artifact w =
          let owned =
            r.set_controller_reference source (new_artifact r source url revision metadata) in
          ground (arith, create_published-Writes artifact owned w)

      -- A publication writes the status of the child at most ten times, whatever the API server
      -- answers, for every count of these writes in a world.
      pub reconcile_external_artifact-updates :
          (w : r.World)
          → count (reconcile_external_artifact r source url revision metadata w).1 ≤ count w + 10
      unfolding reconcile_external_artifact
      reconcile_external_artifact-updates w =
          let (got, v) = r.get_artifact source.metadata.namespace source.metadata.name w in
          omega (
            arith,
            counts.get source.metadata.namespace source.metadata.name w,
            publish-Writes got (flux_artifact r source url revision metadata v) v,
          )
