-- ===== src/Tests/Patience.antt =====
-- The theorem on publishing under faults, at an API server that refuses updates at first.
use flux_externalsource_cont.Prelude.{
  ℕ, zero, suc, ◌≡◌, refl, false, some, ◌+◌, ◌≤◌, [], Result, ok, err, arith,
}
use flux_externalsource_cont.Cluster.{ApiError, conflict, FluxArtifact, ExternalArtifact}
use flux_externalsource_cont.Controller.Reconciler.{Reconciler}
use flux_externalsource_cont.Controller.Publish.{
  reconcile_external_artifact, flux_artifact, new_artifact,
}
use flux_externalsource_cont.Controller.Publish.Patience.{
  failed, missed, BoundsFaults, reconcile_external_artifact-outlasts,
}
use flux_externalsource_cont.Tests.{found_child, toy, source, town, Town}

abbrev refuse : ℕ → ExternalArtifact → Town → Result ApiError (Unit {0}) × Town
refuse zero a w = (ok tt, record w { child = some a })
refuse (suc n) a w = (err (conflict "the object has been modified"), record w { refusals = n })

abbrev busy : Reconciler
busy = record toy { update_artifact_status = λ a w. refuse w.refusals a w }

abbrev There : Town → Type 0
There w = (a : ExternalArtifact) × (w.child ≡ some a) × (w.broken ≡ false)

abbrev shown : FluxArtifact
shown = flux_artifact busy (source "v1" [] false) "http://artifacts/r2" "r2" [] (town false)

update_lem :
    (n : ℕ) (a : ExternalArtifact) (w : Town)
    → w.refusals ≡ n
    → There w
    → There (refuse n a w).1 × ((refuse n a w).1.refusals + failed (refuse n a w).0 ≤ w.refusals)
update_lem zero a w e (c, here, up) = ((a, refl, up), omega arith)
update_lem (suc n) a w e there = (there, omega arith)

get_lem :
    (w : Town)
    → There w
    → There w × (w.refusals + failed (found_child w.broken w.child) ≤ w.refusals)
get_lem w (a, here, up) = ((a, here, up), rw (here, up) (omega arith))

verify_lem :
    (n : ℕ) (a : ExternalArtifact) (w : Town)
    → There w
    → (let (x, v) = refuse n (record a { artifact = some shown }) w in
        x ≡ ok tt → v.refusals + missed (found_child v.broken v.child) ≤ v.refusals)
verify_lem zero a w (c, here, up) e = rw up (omega arith)
verify_lem (suc n) a w there e = cc

bounded : BoundsFaults busy There (λ w. w.refusals) "n" "s" shown
bounded = record {
  get = get_lem;
  update = λ a w there. update_lem w.refusals a w refl there;
  verify = λ a w there. verify_lem w.refusals a w there;
}

abbrev refusing : Town
refusing = record (town false) { refusals = 9 }

abbrev owned : ExternalArtifact
owned = record (new_artifact busy (source "v1" [] false) "http://artifacts/r2" "r2" []) {
  controller = some "s";
}

reconcile_external_artifact-outlasts_example :
    (reconcile_external_artifact busy
      (source "v1" [] false)
      "http://artifacts/r2"
      "r2"
      []
      refusing).0
    ≡ ok tt
reconcile_external_artifact-outlasts_example =
    reconcile_external_artifact-outlasts busy There (λ w. w.refusals) (source "v1" [] false)
      "http://artifacts/r2" "r2" [] refusing refusing (record refusing { child = some owned })
      "no such artifact" owned bounded refl refl refl (owned, refl, refl) (omega arith)
