-- ===== src/Tests/Active.antt =====
-- The theorem on the active reconciliations, at a recorder that counts them.
use flux_externalsource_cont.Prelude.{
  ◌+◌, ◌-◌, String, ◌≡◌, refl, false, ap, subst, some, [], Result, ok, err, arith,
}
use flux_externalsource_cont.Prelude.Leaves.{Leaves}
use flux_externalsource_cont.Generator.{SourceGenerator}
use flux_externalsource_cont.Controller.Reconciler.{Reconciler}
use flux_externalsource_cont.Controller.Reconcile.{reconcile_request}
use flux_externalsource_cont.Controller.Steady.{Unseen}
use flux_externalsource_cont.Controller.Steady.Request.{reconcile_request-restores}
use flux_externalsource_cont.Metrics.Prometheus.{Vectors, new_prometheus_recorder, metrics_of}
use flux_externalsource_cont.Tests.{toy, toy_generator, source, town, Town}

abbrev gauge : Vectors Town
gauge = record {
  inc_counter = λ vec labels w. w;
  observe = λ vec labels w. w;
  inc_gauge = λ vec labels w. record w { active = w.active + 1 };
  dec_gauge = λ vec labels w. record w { active = w.active - 1 };
}

abbrev metered : Reconciler
metered = record toy { metrics_recorder = some (metrics_of gauge new_prometheus_recorder) }

abbrev made : Result String (SourceGenerator Town) → SourceGenerator Town
made (ok g) = g
made (err e) = toy_generator

unseen : Unseen metered (λ w. w.active)
unfolding metrics_of
unseen = record {
  get_source = λ namespace name w. refl;
  update_source = λ s w. refl;
  update_source_status = λ s w. refl;
  get_artifact = λ namespace name w. refl;
  create_artifact = λ a w. refl;
  update_artifact_status = λ a w. refl;
  generate = λ t g e c.
      subst (λ h. Leaves (λ (w : Town). w.active) (h.generate c)) (ap made e)
        (record { leaves = λ w. refl });
  get_last_modified = λ t g e c.
      subst (λ h. Leaves (λ (w : Town). w.active) (h.get_last_modified c)) (ap made e)
        (record { leaves = λ w. refl });
  execute = λ input hook. record { leaves = λ w. refl };
  package_data = λ bytes path. record { leaves = λ w. refl };
  store = λ a key. record { leaves = λ w. refl };
  cleanup = λ key keep. record { leaves = λ w. refl };
  record_reconciliation = λ namespace name t b w. refl;
  record_source_request = λ t b w. refl;
  record_hook_execution = λ name policy b w. refl;
  record_artifact_operation = λ operation b w. refl;
}

abbrev peopled : Town
peopled = record (town false) { source = some (source "v1" [] false); active = 3 }

reconcile_request-restores_example :
    (reconcile_request metered "n" "s" peopled).1.active ≡ peopled.active
unfolding metrics_of
reconcile_request-restores_example =
    reconcile_request-restores metered (λ w. w.active) unseen (λ n. n + 1) (λ n. n - 1) "n" "s"
      (λ w. refl) (λ w. refl) (λ n. omega arith) peopled
