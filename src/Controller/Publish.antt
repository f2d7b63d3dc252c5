-- ===== src/Controller/Publish.antt =====
-- `reconcileExternalArtifact`, `updateExternalArtifactStatusWithRetry` and `mapsEqual`: the child
-- resource that Flux reads. The pauses between two rounds have no effect here.
pub mod Laws
pub mod Rounds
pub mod Patience
use Prim.Native.String.{◌++◌}
use flux_externalsource_cont.Prelude.{
  ℕ, zero, suc, ◌+◌, String, Bool, true, false, not, ◌&&◌, ◌||◌, Option, none, some, List, [], ◌∷◌,
  Result, ok, err, ◌==◌, eqb, ltb, length, all, if◌then◌else◌,
}
use flux_externalsource_cont.Prelude.Actions.{Action, pure, raise, gets, ◌>>=◌}
use flux_externalsource_cont.Prelude.Dict.{Dict, lookup}
use flux_externalsource_cont.Api.{ExternalSource}
use flux_externalsource_cont.Cluster.{
  ApiError, not_found, conflict, server_timeout, other, message, is_not_found, FluxArtifact,
  SourceRef, ExternalArtifact,
}
use flux_externalsource_cont.Controller.Reconciler.{Reconciler}

-- `m[k]` of a map of strings
abbrev pub value_or_empty : Option String → String
value_or_empty none = ""
value_or_empty (some v) = v

unfoldable pub maps_equal : Dict String → Dict String → Bool
maps_equal a b = eqb (length a) (length b) && all (λ e. value_or_empty (lookup e.0 b) == e.1) a

unfoldable pub needs_update : Option FluxArtifact → String → String → Dict String → Bool
unfolding maps_equal
needs_update none artifact_url revision metadata = true
needs_update (some current) artifact_url revision metadata =
    not (current.url == artifact_url)
    || (not (current.revision == revision) || not (maps_equal current.metadata metadata))

-- `Status.Artifact == nil || Status.Artifact.URL == ""`
abbrev pub not_set : Option FluxArtifact → Bool
not_set none = true
not_set (some a) = a.url == ""

abbrev pub is_conflict : ApiError → Bool
is_conflict (conflict m) = true
is_conflict _ = false

abbrev pub is_server_timeout : ApiError → Bool
is_server_timeout (server_timeout m) = true
is_server_timeout _ = false

-- A call of the API server, whose error the caller looks at.
unfoldable pub call : {W A : Type 0} → (W → Result ApiError A × W) → Action W (Result ApiError A)
call m w = let (x, w') = m w in (ok x, w')

abbrev pub api_version : String
api_version = "source.flux.oddkin.co/v1alpha1"

abbrev pub max_status_retries : ℕ
max_status_retries = 10

module _ (r : Reconciler) where
  module _ (namespace name : String) (artifact : FluxArtifact) where
    module _ (more : Bool) (again : Action r.World (Unit {0})) where
      -- the end of a round: what the re-read object shows
      unfoldable pub after_verify : Result ApiError ExternalArtifact → Action r.World (Unit {0})
      unfolding ◌>>=◌
      after_verify (err e) = if more then again else pure tt
      after_verify (ok seen) =
          if not_set seen.artifact
          then (if more
              then again
              else raise "ExternalArtifact status not set after 10 update attempts")
          else pure tt

      -- the answer to the update
      unfoldable pub after_update : Result ApiError (Unit {0}) → Action r.World (Unit {0})
      unfolding after_verify call
      after_update (err e) =
          if is_conflict e || (more && is_server_timeout e)
          then again
          else if more
          then again
          else raise ("failed to update ExternalArtifact status after 10 attempts: " ++ message e)
      after_update (ok _) = do seen ← call (r.get_artifact namespace name); after_verify seen

      -- the answer to the first read
      unfoldable pub after_get : Result ApiError ExternalArtifact → Action r.World (Unit {0})
      unfolding after_update
      after_get (err e) =
          if more
          then again
          else if is_not_found e
          then raise ("ExternalArtifact not found after 10 attempts: " ++ message e)
          else raise ("failed to get created ExternalArtifact: " ++ message e)
      after_get (ok created) = do
        updated ← call (r.update_artifact_status (record created { artifact = some artifact }))
        after_update updated

    -- `for i := 0; i < maxRetries; i++`, with the rounds left
    unfoldable pub status_rounds : (rounds i : ℕ) → Action r.World (Unit {0})
    unfolding after_get
    status_rounds zero i = raise "failed to update ExternalArtifact status after 10 retries"
    status_rounds (suc rounds) i = do
      created ← call (r.get_artifact namespace name)
      after_get (ltb (i + 1) max_status_retries) (status_rounds rounds (i + 1)) created

    unfoldable pub update_status_with_retry : Action r.World (Unit {0})
    unfolding status_rounds
    update_status_with_retry = status_rounds max_status_retries 0

  module _ (source : ExternalSource) (artifact_url revision : String) (metadata : Dict String) where
    abbrev pub new_artifact : ExternalArtifact
    new_artifact = record {
      name = source.metadata.name;
      namespace = source.metadata.namespace;
      source_ref = record {
        api_version = api_version;
        kind = "ExternalSource";
        name = source.metadata.name;
        namespace = source.metadata.namespace;
      };
      controller = none;
      artifact = none;
    }

    abbrev pub flux_artifact : r.World → FluxArtifact
    flux_artifact w = record {
      url = artifact_url;
      path = artifact_url;
      revision = revision;
      digest = "sha256:" ++ revision;
      last_update_time = r.now w;
      metadata = metadata;
    }

    -- the object was not there
    unfoldable pub create_published :
        FluxArtifact → Result String ExternalArtifact → Action r.World (Unit {0})
    unfolding call ◌>>=◌
    create_published artifact (err e) = raise ("failed to set controller reference: " ++ e)
    create_published artifact (ok owned) = do
      created ← call (r.create_artifact owned)
      elim created [
        | err e ↦ raise ("failed to create ExternalArtifact: " ++ message e)
        | ok _ ↦ update_status_with_retry source.metadata.namespace source.metadata.name artifact
      ]

    -- the object is there
    unfoldable pub update_published : FluxArtifact → ExternalArtifact → Action r.World (Unit {0})
    unfolding needs_update call ◌>>=◌
    update_published artifact existing =
        if needs_update existing.artifact artifact_url revision metadata
        then (do
          updated ← call (r.update_artifact_status (record existing { artifact = some artifact }))
          elim updated [
            | err e ↦ raise ("failed to update ExternalArtifact status: " ++ message e)
            | ok _ ↦ pure tt
          ])
        else pure tt

    unfoldable pub publish :
        Result ApiError ExternalArtifact → FluxArtifact → Action r.World (Unit {0})
    unfolding create_published update_published
    publish (ok existing) artifact = update_published artifact existing
    publish (err e) artifact =
        if is_not_found e
        then create_published artifact (r.set_controller_reference source new_artifact)
        else raise ("failed to get ExternalArtifact: " ++ message e)

    unfoldable pub reconcile_external_artifact : Action r.World (Unit {0})
    unfolding publish
    reconcile_external_artifact = do
      existing ← call (r.get_artifact source.metadata.namespace source.metadata.name)
      artifact ← gets flux_artifact
      publish existing artifact
