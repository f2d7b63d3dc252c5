-- ===== src/Controller/HookRun/Laws.antt =====
-- What a run of hooks guarantees.
use flux_externalsource_cont.Prelude.{
  ℕ, zero, suc, ◌+◌, ◌-◌, ◌≤◌, String, ◌≡◌, ◌∙◌, Bool, List, [], ◌∷◌, Result, ok, err, is_ok, arith,
  length,
}
use flux_externalsource_cont.Prelude.Int.{ℤ, pos_part}
use flux_externalsource_cont.Prelude.Actions.{Action, continue}
use flux_externalsource_cont.Api.{HookSpec, ExternalSource}
use flux_externalsource_cont.Generator.{Bytes}
use flux_externalsource_cont.Controller.Reconciler.{Reconciler}
use flux_externalsource_cont.Controller.Pass.{record_on}
use flux_externalsource_cont.Controller.HookRun.{
  policy_of, max_attempts, after_attempt, attempt_hook, run_hooks, budget, execute_hooks,
}

-- the world behind one execution and its metric
abbrev pub executed : (r : Reconciler) → HookSpec → Bytes → r.World → r.World
executed r hook input w =
    record_on r r.metrics_recorder
      (λ m.
        m.record_hook_execution hook.name (policy_of hook)
          (is_ok (r.hook_executor.execute input hook w).0))
      (r.hook_executor.execute input hook w).1

module _ (r : Reconciler) (count : r.World → ℕ) where
  -- `count` counts the executions of hooks in a world.
  pub record CountsExecutions : Type 0 where
    pub execution :
        (input : Bytes) (hook : HookSpec) (w : r.World)
        → count (r.hook_executor.execute input hook w).1 ≡ count w + 1
    pub metric :
        (name policy : String) (success : Bool) (w : r.World)
        → count
            (record_on r r.metrics_recorder (λ m. m.record_hook_execution name policy success) w)
          ≡ count w

  -- executions made and retries left, after a hook
  abbrev Spent : ℤ → Result String (Bytes × ℕ) → r.World → ℕ → Type 0
  Spent max_retries (ok (output, total)) w bound = count w + (pos_part max_retries - total) ≤ bound
  Spent max_retries (err e) w bound = count w ≤ bound

  Spent-mono :
      (max_retries : ℤ) (result : Result String (Bytes × ℕ)) (w : r.World) (m n : ℕ)
      → Spent max_retries result w m
      → m ≤ n
      → Spent max_retries result w n
  Spent-mono max_retries (ok (output, total)) w m n h le = omega arith
  Spent-mono max_retries (err e) w m n h le = omega arith

  module _ (counts : CountsExecutions) (hook : HookSpec) (max_retries : ℤ) (limit : ℕ) where
    after_attempt-Spent :
        (attempts total bound : ℕ) (input : Bytes) (again : Action r.World (Bytes × ℕ))
        (result : Result String Bytes) (w : r.World)
        → count w + (pos_part max_retries - total) ≤ bound
        → (pos_part max_retries ≡ suc total + (pos_part max_retries - suc total)
            → Spent max_retries (again w).0 (again w).1 bound)
        → (let after = after_attempt r hook max_retries limit attempts total input again result w in
            Spent max_retries after.0 after.1 bound)
    unfolding after_attempt
    after_attempt-Spent attempts total bound input again (ok output) w here later = here
    after_attempt-Spent attempts total bound input again (err e) w here later = ground arith

    count-executed : (input : Bytes) (w : r.World) → count (executed r hook input w) ≡ count w + 1
    count-executed input w = counts.metric _ _ _ _ ∙ counts.execution input hook w

    attempt_hook-Spent :
        (rounds attempts total : ℕ) (input : Bytes) (w : r.World)
        → (let after = attempt_hook r hook max_retries limit rounds attempts total input w in
            Spent max_retries after.0 after.1 (count w + 1 + (pos_part max_retries - total)))
    unfolding attempt_hook
    attempt_hook-Spent zero attempts total input w = omega arith
    attempt_hook-Spent (suc rounds) attempts total input w =
        after_attempt-Spent attempts total _ input _ (r.hook_executor.execute input hook w).0 _
          (omega (arith, count-executed input w))
          λ room.
            Spent-mono max_retries _ _ _ _
              (attempt_hook-Spent rounds (attempts + 1) (total + 1) input (executed r hook input w))
              (omega (arith, count-executed input w))

  continue_executions :
      (max_retries : ℤ) (result : Result String (Bytes × ℕ)) (w : r.World) (bound : ℕ)
      (f : Bytes × ℕ → Action r.World Bytes) (n : ℕ)
      → Spent max_retries result w bound
      → ((next : Bytes × ℕ) (w' : r.World)
          → count (f next w').1 ≤ count w' + n + (pos_part max_retries - next.1))
      → count (continue result f w).1 ≤ bound + n
  continue_executions max_retries (ok next) w bound f n spent rest = omega (arith, rest next w)
  continue_executions max_retries (err e) w bound f n spent rest = omega arith

  module _ (counts : CountsExecutions) (max_retries : ℤ) where
    run_hooks_executions :
        (hooks : List HookSpec) (input : Bytes) (total : ℕ) (w : r.World)
        → count (run_hooks r max_retries hooks input total w).1
          ≤ count w + length hooks + (pos_part max_retries - total)
    unfolding run_hooks
    run_hooks_executions [] input total w = omega arith
    run_hooks_executions (hook ∷ rest) input total w =
        let limit = max_attempts (policy_of hook) max_retries total in
        let after = attempt_hook r hook max_retries limit limit 0 total input w in
        omega (
          arith,
          continue_executions max_retries after.0 after.1 _
              (λ (next : Bytes × ℕ). run_hooks r max_retries rest next.0 next.1) (length rest)
              (attempt_hook-Spent counts hook max_retries limit limit 0 total input w)
              (λ next w'. run_hooks_executions rest next.0 next.1 w'),
        )

  -- However the hooks fail, a run makes at most one execution for each hook and one for each
  -- allowed retry, for every count of the executions in a world.
  pub execute_hooks_executions :
      CountsExecutions
      → (source : ExternalSource) (input : Bytes) (hooks : List HookSpec) (w : r.World)
      → count (execute_hooks r source input hooks w).1
        ≤ count w + length hooks + pos_part (budget r source.spec.max_retries)
  unfolding execute_hooks
  execute_hooks_executions counts source input hooks w =
      omega (arith, run_hooks_executions counts (budget r source.spec.max_retries) hooks input 0 w)
