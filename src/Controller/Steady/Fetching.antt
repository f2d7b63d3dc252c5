-- ===== src/Controller/Steady/Fetching.antt =====
-- A fetch and a recovery leave the observation alone.
use flux_externalsource_cont.Prelude.{
  String, is_ok, true, false, if◌then◌else◌, ◌≡◌, refl, Option, none, some, List, [], ◌∷◌, Result,
  ok, err, arith,
}
use flux_externalsource_cont.Prelude.Actions.{pure}
use flux_externalsource_cont.Prelude.Leaves.{
  Leaves, gets-Leaves, attempt-Leaves, bind-Leaves, pure-Leaves,
}
use flux_externalsource_cont.Api.{HookSpec, condition_true, ArtifactMetadata}
use flux_externalsource_cont.Artifact.{Artifact}
use flux_externalsource_cont.Generator.{Bytes, SourceData, SourceGenerator, GeneratorConfig}
use flux_externalsource_cont.Controller.Reconciler.{Reconciler}
use flux_externalsource_cont.Controller.Conditions.{
  fetching_condition, progressing_reason, succeeded_reason,
}
use flux_externalsource_cont.Controller.Steady.{
  set_progress_condition-Steady, set_ready_condition-Steady, clear_progress_conditions-Steady,
  recorded-Steady, Unseen, Steady, on_world-Steady, seen, steady,
}
use flux_externalsource_cont.Controller.Steady.Publishing.{reconcile_external_artifact-Leaves}
use flux_externalsource_cont.Controller.Steady.Hooks.{execute_hooks-Leaves}
use flux_externalsource_cont.Controller.Recovery.{recover_artifact, perform_recovery}
use flux_externalsource_cont.Controller.Settings.{create_generator_config}
use flux_externalsource_cont.Controller.Fetch.{
  after_check, check_again, check_unchanged, after_hooks, post_request_hooks, after_store,
  after_package, package_and_store, after_generate, fetch, check_and_fetch, with_config, reconcile,
}

module _ (r : Reconciler) {X : Type 0} (f : r.World → X) (unseen : Unseen r f) where
  ruleset known = (steady, reconcile_external_artifact-Leaves, execute_hooks-Leaves)

  after_check-Steady :
      (etag : String) (x : Result String String) → Steady r f (after_check r etag x)
  unfolding after_check seen
  after_check-Steady etag (ok current) = record { leaves = λ s. ground arith }
  after_check-Steady etag (err e) = search known

  after_hooks-Steady : (x : Result String Bytes) → Steady r f (after_hooks r x)
  unfolding after_hooks
  after_hooks-Steady (ok output) = search known
  after_hooks-Steady (err e) = search known

  post_request_hooks-Steady :
      (hooks : List HookSpec) (input : Bytes) → Steady r f (post_request_hooks r hooks input)
  unfolding post_request_hooks
  post_request_hooks-Steady [] input = search known
  post_request_hooks-Steady (hook ∷ rest) input = search (known, after_hooks-Steady) depth 16

  after_store-Steady :
      (fetched : SourceData) (packaged : Artifact) (x : Result String String)
      → Steady r f (after_store r fetched packaged x)
  unfolding after_store
  after_store-Steady fetched packaged (ok url) = search (known, unseen.cleanup) depth 24
  after_store-Steady fetched packaged (err e) = search known

  after_package-Steady :
      (fetched : SourceData) (x : Result String Artifact) → Steady r f (after_package r fetched x)
  unfolding after_package
  after_package-Steady fetched (ok packaged) =
      search (known, unseen.store, unseen.record_artifact_operation, after_store-Steady)
  after_package-Steady fetched (err e) = search known

  package_and_store-Steady :
      (fetched : SourceData) (processed : Bytes)
      → Steady r f (package_and_store r fetched processed)
  unfolding package_and_store
  package_and_store-Steady fetched processed =
      search (known, unseen.package_data, unseen.record_artifact_operation, after_package-Steady)
        depth 16

  after_generate-Steady : (x : Result String SourceData) → Steady r f (after_generate r x)
  unfolding after_generate
  after_generate-Steady (ok fetched) =
      search (known, post_request_hooks-Steady, package_and_store-Steady)
  after_generate-Steady (err e) = search known

  module _ (g : SourceGenerator r.World) (c : GeneratorConfig) where
    check_again-Steady :
        Leaves f (g.get_last_modified c) → (etag : String) → Steady r f (check_again r etag g c)
    unfolding check_again
    check_again-Steady k etag =
        bind-Leaves _ _
          (set_progress_condition-Steady r f fetching_condition true progressing_reason
            "Checking for updates")
          (λ _.
            bind-Leaves _ _ (attempt-Leaves _ (on_world-Steady r f (g.get_last_modified c) k))
              (after_check-Steady etag))

    check_unchanged-Steady : Leaves f (g.get_last_modified c) → Steady r f (check_unchanged r g c)
    unfolding check_unchanged seen
    check_unchanged-Steady k = record {
      leaves =
          λ s. ground (arith, (check_again-Steady k s.source.status.last_handled_etag).leaves s);
    }

    fetch-Steady : Leaves f (g.generate c) → Steady r f (fetch r g c)
    unfolding fetch
    fetch-Steady k =
        bind-Leaves _ _
          (set_progress_condition-Steady r f fetching_condition true progressing_reason
            "Fetching data from external source")
          (λ _. bind-Leaves _ _ (attempt-Leaves _ (on_world-Steady r f (g.generate c) k)) (λ x.
            bind-Leaves _ _ (gets-Leaves (λ s. s.source.spec.generator.type)) (λ t.
              bind-Leaves _ _
                (recorded-Steady r f (λ m. m.record_source_request t (is_ok x))
                  (unseen.record_source_request t (is_ok x)))
                (λ _. bind-Leaves _ _ (after_generate-Steady x) (λ _.
                  bind-Leaves _ _ (clear_progress_conditions-Steady r f) (λ _.
                    set_ready_condition-Steady r f condition_true succeeded_reason
                      "ExternalSource is ready"))))))

    check_and_fetch-Steady :
        Leaves f (g.get_last_modified c)
        → Leaves f (g.generate c)
        → Steady r f (check_and_fetch r g c)
    unfolding check_and_fetch
    check_and_fetch-Steady k l =
        bind-Leaves (check_unchanged r g c)
          (λ unchanged. if unchanged then pure tt else fetch r g c) (check_unchanged-Steady k)
          (elim [ true ↦ pure-Leaves tt | false ↦ fetch-Steady l ])

  with_config-Steady :
      (t : String) (c : Result String GeneratorConfig) (g : Result String (SourceGenerator r.World))
      → r.create_generator t ≡ g
      → Steady r f (with_config r c g)
  unfolding seen
  with_config-Steady t (err e) g made = record { leaves = λ s. refl }
  with_config-Steady t (ok c) (err e) made = record { leaves = λ s. refl }
  with_config-Steady t (ok c) (ok g) made =
      let whole =
        check_and_fetch-Steady g c (unseen.get_last_modified t g made c)
          (unseen.generate t g made c) in
      record { leaves = whole.leaves }

  pub reconcile-Steady : Steady r f (reconcile r)
  unfolding reconcile seen
  reconcile-Steady = record {
    leaves = λ s.
        (with_config-Steady s.source.spec.generator.type (create_generator_config s.source)
            (r.create_generator s.source.spec.generator.type) refl).leaves
          s;
  }

  recover_artifact-Steady : (x : Option ArtifactMetadata) → Steady r f (recover_artifact r x)
  unfolding recover_artifact
  recover_artifact-Steady none = search known
  recover_artifact-Steady (some artifact) = search known

  pub perform_recovery-Steady : Steady r f (perform_recovery r)
  unfolding perform_recovery
  perform_recovery-Steady = search (known, recover_artifact-Steady)
