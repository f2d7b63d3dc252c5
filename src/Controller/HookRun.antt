-- ===== src/Controller/HookRun.antt =====
-- `executeHooks`: the post-request hooks, each with its retry policy, under one budget of retries.
-- A delay between two attempts has no effect here. The counters of attempts and of retries count
-- executions that were made, and are natural numbers; the bound computed from the spec's
-- `maxRetries` is an int.
pub mod Laws
pub mod Chain
use Prim.Native.String.{◌++◌}
use flux_externalsource_cont.Prelude.{
  ℕ, zero, suc, ◌+◌, String, Bool, true, false, ◌&&◌, ◌||◌, List, [], ◌∷◌, Result, ok, err, is_ok,
  ◌==◌, ltb, if◌then◌else◌,
}
use flux_externalsource_cont.Prelude.Int.{
  ℤ, pos, negsuc, pos_part, ◌+ℤ◌, ◌-ℤ◌, ltb_ℤ, leb_ℤ, wrap64,
}
use flux_externalsource_cont.Prelude.Actions.{Action, pure, raise, attempt, modify, ◌>>=◌, ◌>>◌}
use flux_externalsource_cont.Api.{HookSpec, ExternalSource}
use flux_externalsource_cont.Generator.{Bytes}
use flux_externalsource_cont.Controller.Reconciler.{Reconciler}
use flux_externalsource_cont.Controller.Pass.{record_on}

abbrev pub policy_of : HookSpec → String
policy_of hook = if hook.retry_policy == "" then "fail" else hook.retry_policy

-- `maxAttempts`, for a hook that starts with `total` retries behind it
unfoldable pub max_attempts : String → ℤ → ℕ → ℕ
max_attempts policy max_retries total =
    let allowed = wrap64 (wrap64 (max_retries -ℤ pos total) +ℤ pos 1) in
    if policy == "retry" then (if ltb_ℤ allowed (pos 1) then 1 else pos_part allowed) else 1

module _ (r : Reconciler) where
  module _ (hook : HookSpec) (max_retries : ℤ) (limit : ℕ) where
    -- the rest of a round of the loop, behind the call of the executor; `again` is what the next
    -- round and those behind it do
    unfoldable pub after_attempt :
        (attempts total : ℕ) (input : Bytes) (again : Action r.World (Bytes × ℕ))
        → Result String Bytes
        → Action r.World (Bytes × ℕ)
    unfolding ◌>>=◌
    after_attempt attempts total input again (ok output) = pure (output, total)
    after_attempt attempts total input again (err e) =
        if policy_of hook == "ignore"
        then pure (input, total + 1)
        else if policy_of hook == "retry"
            && (ltb (attempts + 1) limit && ltb_ℤ (pos (total + 1)) max_retries)
        then again
        else if policy_of hook == "fail" || leb_ℤ max_retries (pos (total + 1))
        then raise (
            "hook "
            ++ hook.name
            ++ " failed after "
            ++ r.print_int (pos (attempts + 1))
            ++ " attempts: "
            ++ e)
        else again

    -- `for attempts < maxAttempts`, with the rounds left; it returns the data for the next hook and
    -- the total of retries
    unfoldable pub attempt_hook : (rounds attempts total : ℕ) → Bytes → Action r.World (Bytes × ℕ)
    unfolding after_attempt ◌>>=◌
    attempt_hook zero attempts total input = pure (input, total)
    attempt_hook (suc rounds) attempts total input = do
      result ← attempt (r.hook_executor.execute input hook)
      modify (
          record_on r r.metrics_recorder
            (λ m. m.record_hook_execution hook.name (policy_of hook) (is_ok result)))
      after_attempt attempts total input (attempt_hook rounds (attempts + 1) (total + 1) input)
          result

  unfoldable pub run_hooks : ℤ → List HookSpec → Bytes → ℕ → Action r.World Bytes
  unfolding attempt_hook ◌>>=◌
  run_hooks max_retries [] input total = pure input
  run_hooks max_retries (hook ∷ rest) input total = do
    let limit = max_attempts (policy_of hook) max_retries total
    next ← attempt_hook hook max_retries limit limit 0 total input
    run_hooks max_retries rest next.0 next.1

  -- 0 stands for the default of 3
  abbrev pub budget : ℤ → ℤ
  budget (pos zero) = pos 3
  budget max_retries = max_retries

  unfoldable pub execute_hooks : ExternalSource → Bytes → List HookSpec → Action r.World Bytes
  unfolding run_hooks
  execute_hooks source input hook_specs =
      run_hooks (budget source.spec.max_retries) hook_specs input 0
