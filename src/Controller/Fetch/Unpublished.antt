-- ===== src/Controller/Fetch/Unpublished.antt =====
-- What a failure to publish leaves to the next pass.
use flux_externalsource_cont.Prelude.{
  String, ◌≡◌, ◌≢◌, refl, ◌∙◌, sym, ap, true, ok, err, ◌==◌, eq_iff, if◌then◌else◌, arith,
}
use flux_externalsource_cont.Generator.{SourceData, SourceGenerator, GeneratorConfig}
use flux_externalsource_cont.Artifact.{Artifact}
use flux_externalsource_cont.Controller.Reconciler.{Reconciler}
use flux_externalsource_cont.Controller.Pass.{Pass}
use flux_externalsource_cont.Controller.Settings.{create_generator_config}
use flux_externalsource_cont.Controller.Fetch.{after_store, reconcile}
use flux_externalsource_cont.Controller.Fetch.Laws.{reconcile-unchanged}

module _ (r : Reconciler) where
  after_store-etag :
      (s : Pass r) (fetched : SourceData) (packaged : Artifact) (url : String)
      → (after_store r fetched packaged (ok url) s).1.source.status.last_handled_etag ≡ (
          if fetched.last_modified == ""
          then s.source.status.last_handled_etag
          else fetched.last_modified)
  unfolding after_store
  after_store-etag s fetched packaged url = refl

  new_etag : (etag old : String) → etag ≢ "" → (if etag == "" then old else etag) ≡ etag
  new_etag etag old h = ground (arith, eq_iff etag "")

  -- The ETag of a fetch whose artifact was stored but could not be published is kept: while the
  -- source still has it, and the generator can be asked for it, a later pass with that ETag in
  -- its status returns without an error, asks for nothing but the ETag, and leaves the artifact
  -- in the status as it finds it.
  pub reconcile-unpublished :
      (s s' t : Pass r) (fetched : SourceData) (packaged : Artifact) (url e : String)
      (c : GeneratorConfig) (g : SourceGenerator r.World)
      → after_store r fetched packaged (ok url) s ≡ (err e, s')
      → fetched.last_modified ≢ ""
      → t.source.status.last_handled_etag ≡ s'.source.status.last_handled_etag
      → create_generator_config t.source ≡ ok c
      → r.create_generator t.source.spec.generator.type ≡ ok g
      → g.supports_conditional_fetch ≡ true
      → (g.get_last_modified c t.world).0 ≡ ok fetched.last_modified
      → ((reconcile r t).0 ≡ ok tt)
        × ((reconcile r t).1.world ≡ (g.get_last_modified c t.world).1)
        × ((reconcile r t).1.source.status.artifact ≡ t.source.status.artifact)
  reconcile-unpublished s s' t fetched packaged url e c g failed etag kept config generator
        conditional answer =
      let stored : t.source.status.last_handled_etag ≡ fetched.last_modified =
        kept
        ∙ sym (ap (λ p. p.1.source.status.last_handled_etag) failed)
        ∙ after_store-etag s fetched packaged url
        ∙ new_etag fetched.last_modified _ etag in
      let unchanged =
        reconcile-unchanged r t c g config generator conditional
          (λ empty. etag (sym stored ∙ empty)) (rw stored answer) in
      (unchanged.0, unchanged.1, unchanged.2)
