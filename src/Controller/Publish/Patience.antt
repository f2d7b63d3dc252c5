-- ===== src/Controller/Publish/Patience.antt =====
-- Publishing a new child under a server that answers badly for a while: how many bad answers
-- `updateExternalArtifactStatusWithRetry` outlasts.
use flux_externalsource_cont.Prelude.{
  ℕ, zero, suc, ◌+◌, ◌≤◌, String, ◌≡◌, refl, Bool, true, if◌then◌else◌, some, Result, ok, err,
  arith, ltb,
}
use flux_externalsource_cont.Prelude.Actions.{Action}
use flux_externalsource_cont.Prelude.Dict.{Dict}
use flux_externalsource_cont.Api.{ExternalSource}
use flux_externalsource_cont.Cluster.{ApiError, not_found, FluxArtifact, ExternalArtifact}
use flux_externalsource_cont.Controller.Reconciler.{Reconciler}
use flux_externalsource_cont.Controller.Publish.{
  not_set, after_verify, after_update, after_get, status_rounds, update_status_with_retry,
  create_published, publish, reconcile_external_artifact, max_status_retries, new_artifact,
  flux_artifact,
}

-- 1 for an answer that is an error
abbrev pub failed {ℓ} : {A : Type ℓ} → Result ApiError A → ℕ
failed (ok a) = 0
failed (err e) = 1

-- 1 for a read that is an error or shows no artifact
abbrev pub missed : Result ApiError ExternalArtifact → ℕ
missed (ok seen) = if not_set seen.artifact then 1 else 0
missed (err e) = 1

module _ (r : Reconciler) (There : r.World → Type 0) (faults : r.World → ℕ) where
  module _ (namespace name : String) (artifact : FluxArtifact) where
    -- `There` says that the child exists, and `faults` bounds the bad answers that the API server
    -- will still give about it: errors, and reads behind an accepted update that do not show it.
    pub record BoundsFaults : Type 0 where
      pub get :
          (w : r.World)
          → There w
          → (let (got, w') = r.get_artifact namespace name w in
              There w' × (faults w' + failed got ≤ faults w))
      pub update :
          (a : ExternalArtifact) (w : r.World)
          → There w
          → (let (updated, w') = r.update_artifact_status a w in
              There w' × (faults w' + failed updated ≤ faults w))
      pub verify :
          (a : ExternalArtifact) (w : r.World)
          → There w
          → (let (updated, w') =
                r.update_artifact_status (record a { artifact = some artifact }) w in
              let (seen, w'') = r.get_artifact namespace name w' in
              updated ≡ ok tt → faults w'' + missed seen ≤ faults w')

    module _ (bounds : BoundsFaults) where
      -- the rounds that are left outlast fewer bad answers than `rounds`
      abbrev Outlasts : ℕ → Bool → Action r.World (Unit {0}) → Type 0
      Outlasts rounds more again =
          (u : r.World) → There u → suc (faults u) ≤ rounds → (more ≡ true) × ((again u).0 ≡ ok tt)

      module _ (rounds : ℕ) (more : Bool) (again : Action r.World (Unit {0}))
          (later : Outlasts rounds more again) where
        after_verify-Outlasts :
            (seen : Result ApiError ExternalArtifact) (w : r.World)
            → There w
            → faults w + missed seen ≤ rounds
            → (after_verify r namespace name artifact more again seen w).0 ≡ ok tt
        unfolding after_verify
        after_verify-Outlasts (ok a) w there h = ground (arith, later w there)
        after_verify-Outlasts (err e) w there h = ground (arith, later w there)

        after_update-Outlasts :
            (a : ExternalArtifact) (v : r.World) (updated : Result ApiError (Unit {0}))
            → (let (x, w) = r.update_artifact_status (record a { artifact = some artifact }) v in
                There v
                → There w
                → x ≡ updated
                → faults w + failed updated ≤ rounds
                → (after_update r namespace name artifact more again updated w).0 ≡ ok tt)
        unfolding after_update
        after_update-Outlasts a v (ok x) before there ran h =
            let w = (r.update_artifact_status (record a { artifact = some artifact }) v).1 in
            after_verify-Outlasts (r.get_artifact namespace name w).0
              (r.get_artifact namespace name w).1 (bounds.get w there).0
              (omega (arith, bounds.verify a v before ran))
        after_update-Outlasts a v (err e) before there ran h = ground (arith, later _ there)

        after_get-Outlasts :
            (got : Result ApiError ExternalArtifact) (w : r.World)
            → There w
            → faults w + failed got ≤ rounds
            → (after_get r namespace name artifact more again got w).0 ≡ ok tt
        unfolding after_get
        after_get-Outlasts (ok a) w there h =
            let (there', fewer) = bounds.update (record a { artifact = some artifact }) w there in
            after_update-Outlasts a w _ there there' refl (omega arith)
        after_get-Outlasts (err e) w there h = ground (arith, later w there)

      status_rounds-Outlasts :
          (rounds i : ℕ) (w : r.World)
          → i + rounds ≡ max_status_retries
          → There w
          → suc (faults w) ≤ rounds
          → (status_rounds r namespace name artifact rounds i w).0 ≡ ok tt
      unfolding status_rounds
      status_rounds-Outlasts zero i w all there h = absurd (omega arith)
      status_rounds-Outlasts (suc rounds) i w all there h =
          let (there', fewer) = bounds.get w there in
          after_get-Outlasts rounds (ltb (i + 1) max_status_retries)
            (status_rounds r namespace name artifact rounds (i + 1))
            (λ u t less.
              (ground arith, status_rounds-Outlasts rounds (i + 1) u (omega arith) t less))
            (r.get_artifact namespace name w).0 (r.get_artifact namespace name w).1 there'
            (omega arith)

  -- A publication whose child does not exist yet succeeds, if the child is created and the API
  -- server gives at most nine bad answers about it from then on: errors, or reads that do not show
  -- an accepted status yet, for every bound of these answers in a world.
  pub reconcile_external_artifact-outlasts :
      (source : ExternalSource) (url revision : String) (metadata : Dict String) (w v u : r.World)
      (m : String) (owned : ExternalArtifact)
      → BoundsFaults source.metadata.namespace source.metadata.name
          (flux_artifact r source url revision metadata v)
      → r.get_artifact source.metadata.namespace source.metadata.name w ≡ (err (not_found m), v)
      → r.set_controller_reference source (new_artifact r source url revision metadata) ≡ ok owned
      → r.create_artifact owned v ≡ (ok tt, u)
      → There u
      → faults u ≤ 9
      → (reconcile_external_artifact r source url revision metadata w).0 ≡ ok tt
  unfolding reconcile_external_artifact publish create_published update_status_with_retry
  reconcile_external_artifact-outlasts source url revision metadata w v u m owned bounds got owner
        made there few =
      rw (got, owner, made)
        (status_rounds-Outlasts source.metadata.namespace source.metadata.name
          (flux_artifact r source url revision metadata v) bounds max_status_retries 0 u refl there
          (omega arith))
