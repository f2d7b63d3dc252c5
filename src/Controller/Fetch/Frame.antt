-- ===== src/Controller/Fetch/Frame.antt =====
-- A fetch writes the status only.
use flux_externalsource_cont.Prelude.{
  String, ◌≡◌, refl, Bool, true, false, List, [], ◌∷◌, Result, ok, err, if◌then◌else◌,
}
use flux_externalsource_cont.Api.{ConditionStatus, HookSpec}
use flux_externalsource_cont.Artifact.{Artifact}
use flux_externalsource_cont.Generator.{Bytes, SourceData, SourceGenerator, GeneratorConfig}
use flux_externalsource_cont.Controller.Reconciler.{Reconciler}
use flux_externalsource_cont.Controller.Pass.{Pass}
use flux_externalsource_cont.Controller.Pass.Frame.{fixed, Keeps, keeps}
use flux_externalsource_cont.Controller.Conditions.{
  set_condition, set_progress_condition, set_ready_condition, clear_progress_conditions,
}
use flux_externalsource_cont.Controller.Fetch.{
  after_check, check_again, check_unchanged, after_hooks, post_request_hooks, after_store,
  after_package, package_and_store, after_generate, fetch, check_and_fetch, with_config, reconcile,
}
use flux_externalsource_cont.Controller.Settings.{create_generator_config}

module _ {r : Reconciler} where
  set_condition-Keeps :
      (t : String) (status : ConditionStatus) (reason message : String)
      → Keeps (set_condition r t status reason message)
  unfolding set_condition
  set_condition-Keeps t status reason message s = refl

  set_progress_condition-Keeps :
      (t : String) (b : Bool) (reason message : String)
      → Keeps (set_progress_condition r t b reason message)
  unfolding set_progress_condition
  set_progress_condition-Keeps t b reason message s = refl

  set_ready_condition-Keeps :
      (status : ConditionStatus) (reason message : String)
      → Keeps (set_ready_condition r status reason message)
  unfolding set_ready_condition
  set_ready_condition-Keeps status reason message s = refl

  clear_progress_conditions-Keeps : Keeps (clear_progress_conditions r)
  unfolding clear_progress_conditions
  clear_progress_conditions-Keeps s = refl

  ruleset writes = (
    keeps, set_progress_condition-Keeps, set_ready_condition-Keeps, clear_progress_conditions-Keeps,
  )

  after_check-Keeps : (etag : String) (x : Result String String) → Keeps (after_check r etag x)
  unfolding after_check
  after_check-Keeps etag (ok y) = search writes
  after_check-Keeps etag (err y) = search writes

  fixed-if :
      (b : Bool) (s : Pass r) (x y : Result String Bool × Pass r)
      → fixed x.1 ≡ fixed s
      → fixed y.1 ≡ fixed s
      → fixed (if b then x else y).1 ≡ fixed s
  fixed-if true s x y k l = k
  fixed-if false s x y k l = l

  check_again-Keeps :
      (etag : String) (g : SourceGenerator r.World) (c : GeneratorConfig)
      → Keeps (check_again r etag g c)
  unfolding check_again
  check_again-Keeps etag g c = search (writes, after_check-Keeps)

  check_unchanged-Keeps :
      (g : SourceGenerator r.World) (c : GeneratorConfig) → Keeps (check_unchanged r g c)
  unfolding check_unchanged
  check_unchanged-Keeps g c s = fixed-if _ s _ _ (check_again-Keeps _ g c s) refl

  after_hooks-Keeps : (x : Result String Bytes) → Keeps (after_hooks r x)
  unfolding after_hooks
  after_hooks-Keeps (ok y) = search writes
  after_hooks-Keeps (err y) = search writes

  post_request_hooks-Keeps :
      (hooks : List HookSpec) (input : Bytes) → Keeps (post_request_hooks r hooks input)
  unfolding post_request_hooks
  post_request_hooks-Keeps [] input = search writes
  post_request_hooks-Keeps (h ∷ rest) input = search (writes, after_hooks-Keeps)

  after_store-Keeps :
      (fetched : SourceData) (packaged : Artifact) (x : Result String String)
      → Keeps (after_store r fetched packaged x)
  unfolding after_store
  after_store-Keeps fetched packaged (ok url) s = refl
  after_store-Keeps fetched packaged (err e) s = refl

  after_package-Keeps :
      (fetched : SourceData) (x : Result String Artifact) → Keeps (after_package r fetched x)
  unfolding after_package
  after_package-Keeps fetched (ok packaged) = search (writes, after_store-Keeps)
  after_package-Keeps fetched (err e) = search writes

  package_and_store-Keeps :
      (fetched : SourceData) (processed : Bytes) → Keeps (package_and_store r fetched processed)
  unfolding package_and_store
  package_and_store-Keeps fetched processed = search (writes, after_package-Keeps)

  after_generate-Keeps : (x : Result String SourceData) → Keeps (after_generate r x)
  unfolding after_generate
  after_generate-Keeps (ok fetched) =
      search (writes, post_request_hooks-Keeps, package_and_store-Keeps)
  after_generate-Keeps (err e) = search writes

  fetch-Keeps : (g : SourceGenerator r.World) (c : GeneratorConfig) → Keeps (fetch r g c)
  unfolding fetch
  fetch-Keeps g c = search (writes, after_generate-Keeps) depth 16

  check_and_fetch-Keeps :
      (g : SourceGenerator r.World) (c : GeneratorConfig) → Keeps (check_and_fetch r g c)
  unfolding check_and_fetch
  check_and_fetch-Keeps g c = search (writes, check_unchanged-Keeps, fetch-Keeps)

  with_config-Keeps :
      (c : Result String GeneratorConfig) (g : Result String (SourceGenerator r.World))
      → Keeps (with_config r c g)
  with_config-Keeps (err e) g s = refl
  with_config-Keeps (ok c) (err e) s = refl
  with_config-Keeps (ok c) (ok g) s = check_and_fetch-Keeps g c s

  -- A fetch changes neither the metadata, nor the spec, nor the observed generation, on every
  -- path and whatever it returns.
  pub reconcile-Keeps : (s : Pass r) → fixed (reconcile r s).1 ≡ fixed s
  unfolding reconcile
  reconcile-Keeps s =
      with_config-Keeps (create_generator_config s.source)
        (r.create_generator s.source.spec.generator.type) s
