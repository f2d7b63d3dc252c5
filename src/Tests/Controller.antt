-- ===== src/Tests/Controller.antt =====
-- The theorems on errors, retries, hooks and publishing, at one source of the test cluster.
use flux_externalsource_cont.Prelude.{
  ◌+◌, ◌≤◌, String, ◌≡◌, refl, ◌↔◌, ◌⊎◌, inl, inr, true, false, some, List, [], ◌∷◌, Result, ok,
  arith, if◌then◌else◌,
}
use flux_externalsource_cont.Prelude.Dict.{lookup}
use flux_externalsource_cont.Prelude.Text.{codes}
use flux_externalsource_cont.Prelude.Int.{pos, ◌≤ℤ◌, ◌<ℤ◌, ◌+ℤ◌}
use flux_externalsource_cont.Api.{HookSpec, ExternalSource}
use flux_externalsource_cont.Controller.Errors.{
  transient_error, permanent_error, configuration_error, contains, classify_error, config_errors,
  permanent_errors,
}
use flux_externalsource_cont.Controller.Errors.Substring.{Occurs, contains_iff}
use flux_externalsource_cont.Controller.Errors.Laws.{Mentions, classify_error_iff}
use flux_externalsource_cont.Controller.Retry.{
  get_retry_count, calculate_retry_delay, increment_retry_count, last_failure_annotation,
  backoff_start_annotation, read_annotation, eqb_ℤ,
}
use flux_externalsource_cont.Controller.Retry.Laws.{
  calculate_retry_delay_iff, max_delay-lt-calculate_retry_delay, increment_retry_count_lem,
}
use flux_externalsource_cont.Controller.HookRun.{execute_hooks, max_attempts}
use flux_externalsource_cont.Controller.HookRun.Laws.{CountsExecutions, execute_hooks_executions}
use flux_externalsource_cont.Controller.HookRun.Chain.{Chain, execute_hooks-Chain}
use flux_externalsource_cont.Controller.Publish.{
  update_status_with_retry, reconcile_external_artifact,
}
use flux_externalsource_cont.Controller.Publish.Rounds.{
  CountsUpdates, reconcile_external_artifact-updates,
}
use flux_externalsource_cont.Controller.Publish.Laws.{
  Published, reconcile_external_artifact-Published,
}
use flux_externalsource_cont.Tests.{toy, scan-print, hook, source, town, Town, hi, fresh}

contains_iff_example :
    (contains (codes "request timeout") (codes "time") ≡ true)
    ↔ Occurs (codes "time") (codes "request timeout")
contains_iff_example = contains_iff (codes "request timeout") (codes "time")

classify_error_iff_example :
    ((classify_error "no such host" ≡ configuration_error) ↔ Mentions "no such host" config_errors)
    × ((classify_error "no such host" ≡ permanent_error)
        ↔ (¬ Mentions "no such host" config_errors × Mentions "no such host" permanent_errors))
    × ((classify_error "no such host" ≡ transient_error)
        ↔ (¬ Mentions "no such host" config_errors × ¬ Mentions "no such host" permanent_errors))
classify_error_iff_example = classify_error_iff "no such host"

one-positive : pos 0 <ℤ pos 1
one-positive = omega arith

calculate_retry_delay_iff_example :
    ((pos 0 <ℤ calculate_retry_delay toy (source "v1" [] false) "reset") ↔ (
      (classify_error "reset" ≡ transient_error)
      × (get_retry_count toy (source "v1" [] false) <ℤ pos 3)))
    × ((calculate_retry_delay toy (source "v1" [] false) "reset" ≡ pos 0)
        ⊎ (pos 1 ≤ℤ calculate_retry_delay toy (source "v1" [] false) "reset"))
calculate_retry_delay_iff_example =
    calculate_retry_delay_iff toy (source "v1" [] false) "reset" one-positive

-- a source that has failed twice
abbrev failed_twice : ExternalSource
failed_twice =
    let s = source "v1" [] false in
    record s {
      metadata = record (s.metadata) {
        annotations = some (("source.flux.oddkin.co/retry-count", "||") ∷ []);
      };
    }

reset_is_transient : classify_error "reset" ≡ transient_error
unfolding classify_error
reset_is_transient = refl

two_failures : get_retry_count toy failed_twice ≡ pos 2
unfolding get_retry_count lookup
two_failures = refl

max_delay-lt-calculate_retry_delay_example : pos 4 <ℤ calculate_retry_delay toy failed_twice "reset"
max_delay-lt-calculate_retry_delay_example =
    max_delay-lt-calculate_retry_delay toy failed_twice "reset" 0 reset_is_transient
      (rw two_failures (omega arith)) (omega arith) (rw two_failures (omega arith)) refl
      (omega arith) (omega arith)

no_failures : get_retry_count toy (source "v1" [] false) ≡ pos 0
unfolding get_retry_count lookup
no_failures = refl

increment_retry_count_lem_example :
    (let counted = (increment_retry_count toy "reset" fresh).1.source in
      (get_retry_count toy counted ≡ get_retry_count toy fresh.source +ℤ pos 1)
      × (read_annotation last_failure_annotation counted.metadata.annotations ≡ some "reset")
      × (read_annotation backoff_start_annotation counted.metadata.annotations ≡ (
          if eqb_ℤ (get_retry_count toy fresh.source) (pos 0)
          then some "then"
          else read_annotation backoff_start_annotation fresh.source.metadata.annotations)))
increment_retry_count_lem_example =
    increment_retry_count_lem toy fresh "reset" (λ z low high. scan-print z)
      (rw no_failures (omega arith)) (rw no_failures (omega arith))

abbrev two_hooks : List HookSpec
two_hooks = hook "run" "fail" ∷ hook "fail" "ignore" ∷ []

counts_runs : CountsExecutions toy (λ w. w.hooks_run)
counts_runs = record { execution = λ input h w. refl; metric = λ n p b w. refl }

execute_hooks_executions_example :
    (execute_hooks toy fresh.source hi two_hooks (town false)).1.hooks_run ≤ 0 + 2 + 3
execute_hooks_executions_example =
    execute_hooks_executions toy (λ w. w.hooks_run) counts_runs fresh.source hi two_hooks
      (town false)

hooks_pass :
    execute_hooks toy fresh.source hi two_hooks (town false)
    ≡ (ok (33 ∷ hi), record (town false) { hooks_run = 2 })
unfolding execute_hooks max_attempts
hooks_pass = refl

execute_hooks-Chain_example :
    Chain toy two_hooks hi (town false) (33 ∷ hi) (record (town false) { hooks_run = 2 })
execute_hooks-Chain_example =
    execute_hooks-Chain toy fresh.source two_hooks hi (33 ∷ hi) (town false)
      (record (town false) { hooks_run = 2 }) (omega arith) (inr (inr refl), (inl refl, tt))
      hooks_pass

abbrev publishing : Result String (Unit {0}) × Town
publishing = reconcile_external_artifact toy fresh.source "http://artifacts/r2" "r2" [] (town false)

publishing-ok : publishing.0 ≡ ok tt
unfolding reconcile_external_artifact update_status_with_retry
publishing-ok = refl

reconcile_external_artifact-Published_example :
    Published toy fresh.source "http://artifacts/r2" "r2" [] (town false) publishing.1
reconcile_external_artifact-Published_example =
    reconcile_external_artifact-Published toy fresh.source "http://artifacts/r2" "r2" []
      (town false) publishing.1 (λ i. (publishing-ok i, publishing.1))

counts_writes : CountsUpdates toy (λ w. w.child_writes)
counts_writes = record {
  update = λ a w. refl;
  get = λ namespace name w. refl;
  create = λ a w. refl;
}

reconcile_external_artifact-updates_example : publishing.1.child_writes ≤ 0 + 10
reconcile_external_artifact-updates_example =
    reconcile_external_artifact-updates toy (λ w. w.child_writes) counts_writes fresh.source
      "http://artifacts/r2" "r2" [] (town false)
