-- ===== src/Controller/Delete/Laws.antt =====
-- The deletion of an object.
use flux_externalsource_cont.Prelude.{String, ◌≡◌, refl, Option, none, some, Result, ok, err}
use flux_externalsource_cont.Prelude.Actions.{continue, pure}
use flux_externalsource_cont.Api.{ExternalSource, ArtifactMetadata}
use flux_externalsource_cont.Cluster.{ApiError, message}
use flux_externalsource_cont.Controller.Reconciler.{Reconciler}
use flux_externalsource_cont.Controller.Pass.{Pass}
use flux_externalsource_cont.Controller.Fetch.{source_key}
use flux_externalsource_cont.Controller.Delete.{
  RequeueResult, no_requeue, external_source_finalizer, reconcile_delete, clean_storage, stored_in,
  write_source,
}

module _ (r : Reconciler) where
  -- the world after the storage has been cleaned, which only an object with an artifact asks for
  abbrev pub cleaned_world : Option ArtifactMetadata → ExternalSource → r.World → r.World
  cleaned_world none source w = w
  cleaned_world (some a) source w = (r.artifact_manager.cleanup (source_key r source) "" w).1

  -- what the deletion returns for the server's answer to the update
  abbrev pub deleted : Result ApiError ExternalSource → Result String RequeueResult
  deleted (ok source) = ok no_requeue
  deleted (err e) = err (message e)

  clean_storage_lem :
      (artifact : Option ArtifactMetadata) (s : Pass r)
      → clean_storage r artifact s
        ≡ (ok tt, record s { world = cleaned_world artifact s.source s.world })
  unfolding clean_storage
  clean_storage_lem none s = refl
  clean_storage_lem (some a) s = refl

  stored_then :
      (s : Pass r) (x : Result ApiError ExternalSource × r.World)
      → (let y = continue (stored_in r s x).0 (λ _. pure no_requeue) (stored_in r s x).1 in
          (y.0 ≡ deleted x.0) × (y.1.world ≡ x.1))
  unfolding pure
  stored_then s (ok source, w) = (refl, refl)
  stored_then s (err e, w) = (refl, refl)

  -- A deletion cleans the storage of the source, if it has an artifact, and then removes the
  -- finalizer, whether or not the cleanup failed. It returns an error exactly when the server
  -- refuses the object without the finalizer.
  pub reconcile_delete_lem :
      (s : Pass r)
      → (let answer =
            r.update_source
              (r.remove_finalizer s.source external_source_finalizer)
              (cleaned_world s.source.status.artifact s.source s.world) in
          ((reconcile_delete r s).0 ≡ deleted answer.0)
          × ((reconcile_delete r s).1.world ≡ answer.1))
  unfolding reconcile_delete write_source
  reconcile_delete_lem s = rw clean_storage_lem (
      stored_then
        (record s {
          source = r.remove_finalizer s.source external_source_finalizer;
          world = cleaned_world s.source.status.artifact s.source s.world;
        })
        _)
