-- ===== src/Controller/Steady/Hooks.antt =====
-- A run of the hooks leaves the observation alone.
use flux_externalsource_cont.Prelude.{
  ℕ, zero, suc, ◌+◌, String, Bool, List, [], ◌∷◌, Result, ok, err, arith, is_ok,
}
use flux_externalsource_cont.Prelude.Int.{ℤ}
use flux_externalsource_cont.Prelude.Actions.{Action, modify}
use flux_externalsource_cont.Prelude.Leaves.{Leaves, attempt-Leaves, bind-Leaves, leaves}
use flux_externalsource_cont.Api.{ExternalSource, HookSpec}
use flux_externalsource_cont.Generator.{Bytes}
use flux_externalsource_cont.Controller.Reconciler.{Reconciler}
use flux_externalsource_cont.Controller.Pass.{record_on}
use flux_externalsource_cont.Controller.Steady.{Unseen}
use flux_externalsource_cont.Controller.HookRun.{
  policy_of, max_attempts, after_attempt, attempt_hook, run_hooks, budget, execute_hooks,
}

module _ (r : Reconciler) {X : Type 0} (f : r.World → X) (unseen : Unseen r f) where
  metric-Leaves :
      (name policy : String) (b : Bool)
      → Leaves f
          (modify (record_on r r.metrics_recorder (λ m. m.record_hook_execution name policy b)))
  unfolding modify
  metric-Leaves name policy b = record { leaves = unseen.record_hook_execution name policy b }

  module _ (hook : HookSpec) (max_retries : ℤ) (limit : ℕ) where
    after_attempt-Leaves :
        (attempts total : ℕ) (input : Bytes) (again : Action r.World (Bytes × ℕ))
        (x : Result String Bytes)
        → Leaves f again
        → Leaves f (after_attempt r hook max_retries limit attempts total input again x)
    unfolding after_attempt
    after_attempt-Leaves attempts total input again (ok output) k = search leaves
    after_attempt-Leaves attempts total input again (err e) k = record {
      leaves = λ w. ground (arith, k.leaves w);
    }

    attempt_hook-Leaves :
        (rounds attempts total : ℕ) (input : Bytes)
        → Leaves f (attempt_hook r hook max_retries limit rounds attempts total input)
    unfolding attempt_hook
    attempt_hook-Leaves zero attempts total input = search leaves
    attempt_hook-Leaves (suc rounds) attempts total input =
        bind-Leaves _ _ (attempt-Leaves _ (unseen.execute input hook)) (λ x.
          bind-Leaves _ _ (metric-Leaves hook.name (policy_of hook) (is_ok x)) (λ _.
            after_attempt-Leaves attempts total input _ x
              (attempt_hook-Leaves rounds (attempts + 1) (total + 1) input)))

  run_hooks-Leaves :
      (max_retries : ℤ) (hooks : List HookSpec) (input : Bytes) (total : ℕ)
      → Leaves f (run_hooks r max_retries hooks input total)
  unfolding run_hooks
  run_hooks-Leaves max_retries [] input total = search leaves
  run_hooks-Leaves max_retries (hook ∷ rest) input total =
      bind-Leaves _ _
        (attempt_hook-Leaves hook max_retries (max_attempts (policy_of hook) max_retries total)
          (max_attempts (policy_of hook) max_retries total) 0 total input)
        (λ next. run_hooks-Leaves max_retries rest next.0 next.1)

  pub execute_hooks-Leaves :
      (source : ExternalSource) (input : Bytes) (hooks : List HookSpec)
      → Leaves f (execute_hooks r source input hooks)
  unfolding execute_hooks
  execute_hooks-Leaves source input hooks =
      run_hooks-Leaves (budget r source.spec.max_retries) hooks input 0
