-- ===== src/Tests/Passes.antt =====
-- The theorems on a pass, at one source of the test cluster.
use flux_externalsource_cont.Prelude.{
  String, ◌≡◌, ◌≢◌, refl, true, false, some, [], ◌∷◌, Result, ok, err, eq_iff, arith,
}
use flux_externalsource_cont.Prelude.Dict.{lookup}
use flux_externalsource_cont.Prelude.Int.{pos, ◌+ℤ◌, ltb_ℤ, wrap64}
use flux_externalsource_cont.Api.{Condition, condition_true}
use flux_externalsource_cont.Artifact.{Artifact}
use flux_externalsource_cont.Generator.{GeneratorConfig, SourceData, text}
use flux_externalsource_cont.Controller.Pass.{Pass}
use flux_externalsource_cont.Controller.Pass.Frame.{fixed}
use flux_externalsource_cont.Controller.Conditions.{has_condition, ready_condition}
use flux_externalsource_cont.Controller.Conditions.Laws.{condition_shown}
use flux_externalsource_cont.Controller.Errors.{classify_error}
use flux_externalsource_cont.Controller.Retry.{
  get_retry_count, calculate_retry_delay, should_reset_retry_count,
}
use flux_externalsource_cont.Controller.HookRun.{execute_hooks, max_attempts}
use flux_externalsource_cont.Controller.Publish.{
  update_status_with_retry, reconcile_external_artifact,
}
use flux_externalsource_cont.Controller.Recovery.{needs_recovery, perform_recovery}
use flux_externalsource_cont.Controller.Recovery.Laws.{ready_shown, perform_recovery_lem}
use flux_externalsource_cont.Controller.Settings.{create_generator_config}
use flux_externalsource_cont.Controller.Fetch.{after_store, reconcile}
use flux_externalsource_cont.Controller.Fetch.Frame.{reconcile-Keeps}
use flux_externalsource_cont.Controller.Fetch.Laws.{IsReady, reconcile-IsReady, reconcile-unchanged}
use flux_externalsource_cont.Controller.Fetch.Unpublished.{reconcile-unpublished}
use flux_externalsource_cont.Controller.Delete.{
  no_requeue, RequeueResult, after, external_source_finalizer, reconcile_delete,
}
use flux_externalsource_cont.Controller.Delete.Laws.{reconcile_delete_lem}
use flux_externalsource_cont.Controller.Failure.{conclude}
use flux_externalsource_cont.Controller.Failure.Laws.{
  requeue_for, conclude-requeue, Reported, conclude-Reported,
}
use flux_externalsource_cont.Controller.Reconcile.{minute, run, run_every, reconcile_source}
use flux_externalsource_cont.Controller.Reconcile.Bounds.{NotBefore, run_every-NotBefore}
use flux_externalsource_cont.Controller.Reconcile.Laws.{
  prepared, concluded, run-never_resets, OnlyReported, reconcile_source-suspended,
}
use flux_externalsource_cont.Tests.{
  toy, toy_laws, artifact, source, town, toy_generator, hi, fresh, up_to_date,
}

abbrev fetching : Condition
fetching = record {
  type = "Fetching";
  status = condition_true;
  reason = "Progressing";
  message = "";
  last_transition_time = 1;
  observed_generation = pos 1;
}

abbrev interrupted : Pass toy
interrupted = record { source = source "v1" (fetching ∷ []) false; world = town false }

perform_recovery_lem_example :
    (needs_recovery toy (perform_recovery toy interrupted).1 ≡ false)
    × (condition_shown toy (perform_recovery toy interrupted).1 ready_condition
        ≡ some (ready_shown (some artifact) (pos 2)))
    × ((perform_recovery toy interrupted).1.source.status.artifact ≡ some artifact)
perform_recovery_lem_example = perform_recovery_lem toy toy_laws interrupted

reconcile-Keeps_example : fixed (reconcile toy fresh).1 ≡ fixed fresh
reconcile-Keeps_example = reconcile-Keeps fresh

fresh-ok : (reconcile toy fresh).0 ≡ ok tt
unfolding reconcile create_generator_config execute_hooks max_attempts reconcile_external_artifact
    update_status_with_retry
fresh-ok = refl

reconcile-IsReady_example : IsReady toy (reconcile toy fresh).1
reconcile-IsReady_example =
    reconcile-IsReady toy toy_laws fresh (reconcile toy fresh).1
      (λ i. (fresh-ok i, (reconcile toy fresh).1))

abbrev settings : GeneratorConfig
settings = record {
  type = "http";
  config = ("namespace", text "n") ∷ ("url", text "http://example") ∷ [];
}

settings-ok : create_generator_config (source "v2" [] false) ≡ ok settings
unfolding create_generator_config
settings-ok = refl

v2-nonempty : ◌≢◌ {A = String} "v2" ""
v2-nonempty e = ground (arith, eq_iff "v2" "")

reconcile-unchanged_example :
    (let t = (reconcile toy up_to_date).1 in
      ((reconcile toy up_to_date).0 ≡ ok tt)
      × (t.world ≡ record (town false) { etags_read = 1 })
      × (t.source.status.artifact ≡ some artifact)
      × (t.source.status.last_handled_etag ≡ "v2"))
reconcile-unchanged_example =
    reconcile-unchanged toy up_to_date settings toy_generator settings-ok refl refl v2-nonempty refl

abbrev fetched : SourceData
fetched = record { bytes = hi; last_modified = "v2"; metadata = [] }

abbrev packaged : Artifact
packaged = record { bytes = hi; path = "data"; revision = "r2"; metadata = [] }

abbrev unpublished : Pass toy
unpublished = record { source = source "v1" [] false; world = town true }

abbrev storing : Result String (Unit {0}) × Pass toy
storing = after_store toy fetched packaged (ok "http://artifacts/r2") unpublished

storing-fails :
    storing.0 ≡ err "failed to reconcile ExternalArtifact: failed to get ExternalArtifact: timeout"
unfolding after_store reconcile_external_artifact
storing-fails = refl

storing-etag : ◌≡◌ {A = String} "v2" storing.1.source.status.last_handled_etag
unfolding after_store
storing-etag = refl

reconcile-unpublished_example :
    ((reconcile toy up_to_date).0 ≡ ok tt)
    × ((reconcile toy up_to_date).1.world ≡ record (town false) { etags_read = 1 })
    × ((reconcile toy up_to_date).1.source.status.artifact ≡ some artifact)
reconcile-unpublished_example =
    reconcile-unpublished toy unpublished storing.1 up_to_date fetched packaged
      "http://artifacts/r2"
      "failed to reconcile ExternalArtifact: failed to get ExternalArtifact: timeout" settings
      toy_generator (λ i. (storing-fails i, storing.1)) v2-nonempty storing-etag settings-ok refl
      refl refl

conclude-requeue_example :
    (conclude toy (pos 60) (some artifact) (err "reset") fresh).0
    ≡ ok (
        requeue_for toy
          (pos 60)
          fresh.source
          "reset"
          (ltb_ℤ (get_retry_count toy fresh.source) (pos 3))
          (classify_error "reset"))
conclude-requeue_example =
    conclude-requeue toy (pos 60) (some artifact) "reset" fresh (omega arith) refl

conclude-Reported_example :
    Reported toy (conclude toy (pos 60) (some artifact) (err "reset") fresh).1.world (some artifact)
unfolding calculate_retry_delay classify_error get_retry_count lookup wrap64 ◌+ℤ◌
conclude-Reported_example =
    conclude-Reported toy toy_laws (pos 60) (some artifact) "reset" fresh refl

reconcile_delete_lem_example :
    ((reconcile_delete toy fresh).0 ≡ ok no_requeue)
    × ((reconcile_delete toy fresh).1.world ≡ record (town false) {
      source = some (toy.remove_finalizer (source "v1" [] false) external_source_finalizer);
    })
reconcile_delete_lem_example = reconcile_delete_lem toy fresh

run-never_resets_example :
    (should_reset_retry_count toy (concluded toy fresh).source ≡ false)
    × (run toy (pos 60) fresh
        ≡ conclude toy
            (pos 60)
            (prepared toy fresh).source.status.artifact
            (reconcile toy (prepared toy fresh)).0
            (concluded toy fresh))
run-never_resets_example = run-never_resets toy (pos 60) fresh

abbrev passing : Result String RequeueResult × Pass toy
passing = run_every toy (ok (pos 60)) fresh

passing-ok : passing.0 ≡ ok (after minute)
unfolding run_every reconcile create_generator_config execute_hooks max_attempts
    reconcile_external_artifact update_status_with_retry needs_recovery has_condition
passing-ok = refl

run_every-NotBefore_example : NotBefore toy (after minute)
run_every-NotBefore_example =
    run_every-NotBefore toy (pos 60) fresh passing.1 (after minute) (omega arith)
      (λ i. (passing-ok i, passing.1))

abbrev suspended : Pass toy
suspended = record { source = source "v1" [] true; world = town false }

reconcile_source-suspended_example : OnlyReported toy suspended (reconcile_source toy suspended).1
reconcile_source-suspended_example =
    reconcile_source-suspended toy toy_laws suspended refl refl refl
