-- ===== src/Controller/Fetch.antt =====
-- `reconcile`: one fetch of the source, from the conditional check to
-- the published artifact.
pub mod Frame
pub mod Laws
pub mod Unpublished
use Prim.Native.String.{◌++◌}
use flux_externalsource_cont.Prelude.{
  String, Bool, true, false, not, ◌&&◌, Option, none, some, List, [], ◌∷◌, Result, ok, err, is_ok,
  map_err, ◌==◌, if◌then◌else◌,
}
use flux_externalsource_cont.Prelude.Actions.{Action, pure, raise, gets, attempt, wrap, ◌>>=◌, ◌>>◌}
use flux_externalsource_cont.Prelude.Dict.{Dict, insert}
use flux_externalsource_cont.Api.{
  ExternalSource, HttpGeneratorSpec, SecretReference, SecretKeyReference, HooksSpec, HookSpec,
  condition_true,
}
use flux_externalsource_cont.Generator.{
  GeneratorConfig, Value, text, flag, SourceData, SourceGenerator, Bytes,
}
use flux_externalsource_cont.Artifact.{Artifact}
use flux_externalsource_cont.Controller.Reconciler.{Reconciler}
use flux_externalsource_cont.Controller.Pass.{Pass, Act, on_world, recorded, update_status}
use flux_externalsource_cont.Controller.Conditions.{
  set_progress_condition, set_ready_condition, clear_progress_conditions, fetching_condition,
  executing_hooks_condition, storing_condition, succeeded_reason, failed_reason, progressing_reason,
}
use flux_externalsource_cont.Controller.HookRun.{execute_hooks}
use flux_externalsource_cont.Controller.Publish.{reconcile_external_artifact}
use flux_externalsource_cont.Controller.Settings.{create_generator_config}

module _ (r : Reconciler) where
  -- the answer to the check of the ETag: true if the fetch is skipped
  unfoldable pub after_check : String → Result String String → Act r Bool
  unfolding set_progress_condition set_ready_condition ◌>>=◌
  after_check last_handled (err e) = pure false
  after_check last_handled (ok current) =
      if not (current == "") && current == last_handled
      then (do
        set_progress_condition r fetching_condition false succeeded_reason "No changes detected"
        set_ready_condition r condition_true succeeded_reason "ExternalSource is ready"
        pure true)
      else pure false

  unfoldable pub check_again : String → SourceGenerator r.World → GeneratorConfig → Act r Bool
  unfolding after_check on_world
  check_again last_handled generator config = do
    set_progress_condition r fetching_condition true progressing_reason "Checking for updates"
    current ← attempt (on_world r (generator.get_last_modified config))
    after_check last_handled current

  unfoldable pub check_unchanged : SourceGenerator r.World → GeneratorConfig → Act r Bool
  unfolding check_again
  check_unchanged generator config s =
      if generator.supports_conditional_fetch && not (s.source.status.last_handled_etag == "")
      then check_again s.source.status.last_handled_etag generator config s
      else (ok false, s)

  -- the outcome of the hooks
  unfoldable pub after_hooks : Result String Bytes → Act r Bytes
  unfolding set_progress_condition ◌>>=◌
  after_hooks (err e) = do
    set_progress_condition r executing_hooks_condition false failed_reason
        ("Failed to execute hooks: " ++ e)
    raise ("failed to execute post-request hooks: " ++ e)
  after_hooks (ok output) = do
    set_progress_condition r executing_hooks_condition false succeeded_reason
        "Successfully executed post-request hooks"
    pure output

  abbrev pub post_request_of : Option HooksSpec → List HookSpec
  post_request_of none = []
  post_request_of (some hooks) = hooks.post_request

  unfoldable pub post_request_hooks : List HookSpec → Bytes → Act r Bytes
  unfolding after_hooks on_world
  post_request_hooks [] input = pure input
  post_request_hooks (hook ∷ rest) input = do
    set_progress_condition r executing_hooks_condition true progressing_reason
        "Executing post-request hooks"
    source ← gets (λ s. s.source)
    outcome ← attempt (on_world r (execute_hooks r source input (hook ∷ rest)))
    after_hooks outcome

  abbrev pub source_key : ExternalSource → String
  source_key source = source.metadata.namespace ++ "/" ++ source.metadata.name

  -- the artifact is stored: the status is updated, old artifacts go, and the child is published
  unfoldable pub after_store : SourceData → Artifact → Result String String → Act r (Unit {0})
  unfolding set_progress_condition update_status on_world wrap ◌>>=◌
  after_store fetched packaged (err e) = do
    set_progress_condition r storing_condition false failed_reason
        ("Failed to store artifact: " ++ e)
    raise ("failed to store artifact: " ++ e)
  after_store fetched packaged (ok url) = do
    set_progress_condition r storing_condition false succeeded_reason "Successfully stored artifact"
    now ← gets (λ s. r.now s.world)
    update_status r (λ st. record st {
      artifact = some (record {
        url = url;
        revision = packaged.revision;
        last_update_time = now;
        metadata = packaged.metadata;
      });
      last_handled_etag =
          if fetched.last_modified == "" then st.last_handled_etag else fetched.last_modified;
    })
    source ← gets (λ s. s.source)
    cleaned ←
        attempt (on_world r (r.artifact_manager.cleanup (source_key source) packaged.revision))
    wrap (λ e. "failed to reconcile ExternalArtifact: " ++ e)
        (on_world r (reconcile_external_artifact r source url packaged.revision packaged.metadata))

  unfoldable pub after_package : SourceData → Result String Artifact → Act r (Unit {0})
  unfolding after_store recorded
  after_package fetched (err e) = do
    set_progress_condition r storing_condition false failed_reason
        ("Failed to package artifact: " ++ e)
    raise ("failed to package artifact: " ++ e)
  after_package fetched (ok packaged) = do
    source ← gets (λ s. s.source)
    stored ← attempt (on_world r (r.artifact_manager.store packaged (source_key source)))
    recorded r (λ m. m.record_artifact_operation "store" (is_ok stored))
    after_store fetched packaged stored

  abbrev pub destination : String → String
  destination path = if path == "" then "data" else path

  unfoldable pub package_and_store : SourceData → Bytes → Act r (Unit {0})
  unfolding after_package
  package_and_store fetched processed = do
    set_progress_condition r storing_condition true progressing_reason
        "Packaging and storing artifact"
    path ← gets (λ s. destination s.source.spec.destination_path)
    packaged ← attempt (on_world r (r.artifact_manager.package_data processed path))
    recorded r (λ m. m.record_artifact_operation "package" (is_ok packaged))
    after_package fetched packaged

  unfoldable pub after_generate : Result String SourceData → Act r (Unit {0})
  unfolding post_request_hooks package_and_store
  after_generate (err e) = do
    set_progress_condition r fetching_condition false failed_reason ("Failed to fetch data: " ++ e)
    raise ("failed to generate source data: " ++ e)
  after_generate (ok fetched) = do
    set_progress_condition r fetching_condition false succeeded_reason "Successfully fetched data"
    hooks ← gets (λ s. post_request_of s.source.spec.hooks)
    processed ← post_request_hooks hooks fetched.bytes
    package_and_store fetched processed

  unfoldable pub fetch : SourceGenerator r.World → GeneratorConfig → Act r (Unit {0})
  unfolding after_generate clear_progress_conditions
  fetch generator config = do
    set_progress_condition r fetching_condition true progressing_reason
        "Fetching data from external source"
    generated ← attempt (on_world r (generator.generate config))
    generator_type ← gets (λ s. s.source.spec.generator.type)
    recorded r (λ m. m.record_source_request generator_type (is_ok generated))
    after_generate generated
    clear_progress_conditions r
    set_ready_condition r condition_true succeeded_reason "ExternalSource is ready"

  unfoldable pub check_and_fetch : SourceGenerator r.World → GeneratorConfig → Act r (Unit {0})
  unfolding check_unchanged fetch
  check_and_fetch generator config = do
    unchanged ← check_unchanged generator config
    if unchanged then pure tt else fetch generator config

  abbrev pub with_generator :
      GeneratorConfig → Result String (SourceGenerator r.World) → Act r (Unit {0})
  with_generator config (err e) s = (err ("failed to create source generator: " ++ e), s)
  with_generator config (ok generator) s = check_and_fetch generator config s

  abbrev pub with_config :
      Result String GeneratorConfig → Result String (SourceGenerator r.World) → Act r (Unit {0})
  with_config (err e) generator s = (err ("failed to create generator config: " ++ e), s)
  with_config (ok config) generator s = with_generator config generator s

  unfoldable pub reconcile : Act r (Unit {0})
  unfolding check_and_fetch
  reconcile s =
      with_config (create_generator_config s.source)
        (r.create_generator s.source.spec.generator.type) s
