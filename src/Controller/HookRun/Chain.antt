-- ===== src/Controller/HookRun/Chain.antt =====
-- What the output of a run of hooks is made of.
use flux_externalsource_cont.Prelude.{
  ℕ, zero, suc, ◌+◌, ◌-◌, ◌≤◌, ◌<◌, ◌^◌, String, ◌≡◌, refl, ap, ◌∙◌, ◌⊎◌, List, [], ◌∷◌, Result, ok,
  err, eq_iff, arith, leb, Bool-cases, inl, inr, All,
}
use flux_externalsource_cont.Prelude.Int.{
  ℤ, pos, negsuc, pos_part, ◌≤ℤ◌, ◌<ℤ◌, ◌+ℤ◌, ◌-ℤ◌, wrap64, wrap64_small,
}
use flux_externalsource_cont.Prelude.Actions.{Action, continue-ok}
use flux_externalsource_cont.Api.{HookSpec, ExternalSource}
use flux_externalsource_cont.Generator.{Bytes}
use flux_externalsource_cont.Controller.Reconciler.{Reconciler}
use flux_externalsource_cont.Controller.HookRun.Laws.{executed}
use flux_externalsource_cont.Controller.HookRun.{
  policy_of, max_attempts, after_attempt, attempt_hook, run_hooks, budget, execute_hooks,
}

-- The policies that the resource's schema admits.
abbrev pub IsKnown : HookSpec → Type 0
IsKnown hook =
    (policy_of hook ≡ "ignore") ⊎ ((policy_of hook ≡ "retry") ⊎ (policy_of hook ≡ "fail"))

module _ (r : Reconciler) where
  -- One hook's part, from its input and the world `w` to its output and the world `w'`: the
  -- output of an execution, which failed executions under the policy "retry" may precede, or the
  -- input, after one failed execution under the policy "ignore".
  pub data Passes (hook : HookSpec) (input output : Bytes) (w' : r.World) : r.World → Type 0 where
    succeeded :
        (w : r.World)
        → (r.hook_executor.execute input hook w).0 ≡ ok output
        → executed r hook input w ≡ w'
        → Passes hook input output w' w
    ignored :
        (w : r.World) (e : String)
        → policy_of hook ≡ "ignore"
        → (r.hook_executor.execute input hook w).0 ≡ err e
        → input ≡ output
        → executed r hook input w ≡ w'
        → Passes hook input output w' w
    retried :
        (w : r.World) (e : String)
        → policy_of hook ≡ "retry"
        → (r.hook_executor.execute input hook w).0 ≡ err e
        → Passes hook input output w' (executed r hook input w)
        → Passes hook input output w' w

  -- Each hook gets what the one before it passed on.
  pub data Chain : List HookSpec → Bytes → r.World → Bytes → r.World → Type 0 where
    done : {output : Bytes} {w : r.World} → Chain [] output w output w
    next :
        {hook : HookSpec} {rest : List HookSpec} {input between output : Bytes} {w v w' : r.World}
        → Passes hook input between v w
        → Chain rest between v output w'
        → Chain (hook ∷ rest) input w output w'

  module _ (hook : HookSpec) (max_retries : ℤ) (limit : ℕ) (known : IsKnown hook) where
    failed_attempt :
        (attempts total total' : ℕ) (input output : Bytes) (m : String)
        (again : Action r.World (Bytes × ℕ)) (w w' : r.World)
        → after_attempt r hook max_retries limit attempts total input again (err m) w
          ≡ (ok (output, total'), w')
        → ((policy_of hook ≡ "ignore") × (input ≡ output) × (w ≡ w'))
          ⊎ ((policy_of hook ≡ "retry")
              × (pos (suc total) <ℤ max_retries)
              × (again w ≡ (ok (output, total'), w')))
    unfolding after_attempt
    failed_attempt attempts total total' input output m again w w' e = ground (
      arith,
      eq_iff (policy_of hook) "ignore",
      eq_iff (policy_of hook) "retry",
      eq_iff (policy_of hook) "fail",
    )

    passed_attempt :
        (attempts total total' : ℕ) (input output out : Bytes) (again : Action r.World (Bytes × ℕ))
        (w w' : r.World)
        → after_attempt r hook max_retries limit attempts total input again (ok out) w
          ≡ (ok (output, total'), w')
        → (out ≡ output) × (w ≡ w')
    unfolding after_attempt
    passed_attempt attempts total total' input output out again w w' e = ground arith

    -- The rounds left reach up to the budget, and there is one or the budget is not used up.
    abbrev IsDue : ℕ → ℕ → Type 0
    IsDue rounds total =
        (max_retries ≤ℤ pos (total + rounds)) × ((0 < rounds) ⊎ (pos total <ℤ max_retries))

    after_attempt-Passes :
        (attempts total total' : ℕ) (input output : Bytes) (again : Action r.World (Bytes × ℕ))
        (w w' : r.World) (result : Result String Bytes)
        → (r.hook_executor.execute input hook w).0 ≡ result
        → (policy_of hook ≡ "retry"
            → pos (suc total) <ℤ max_retries
            → again (executed r hook input w) ≡ (ok (output, total'), w')
            → Passes hook input output w' (executed r hook input w))
        → after_attempt r hook max_retries limit attempts total input again result
            (executed r hook input w)
          ≡ (ok (output, total'), w')
        → Passes hook input output w' w
    after_attempt-Passes attempts total total' input output again w w' (ok out) ran later e =
        let (same, last) = passed_attempt attempts total total' input output out again _ w' e in
        succeeded w (ran ∙ ap ok same) last
    after_attempt-Passes attempts total total' input output again w w' (err m) ran later e =
        elim (failed_attempt attempts total total' input output m again _ w' e) [
          | inl (policy, same, last) ↦ ignored w m policy ran same last
          | inr (policy, room, rest) ↦ retried w m policy ran (later policy room rest)
        ]

    attempt_hook-Passes :
        (rounds attempts total total' : ℕ) (input output : Bytes) (w w' : r.World)
        → IsDue rounds total
        → attempt_hook r hook max_retries limit rounds attempts total input w
          ≡ (ok (output, total'), w')
        → Passes hook input output w' w
    unfolding attempt_hook
    attempt_hook-Passes zero attempts total total' input output w w' due e = absurd (omega arith)
    attempt_hook-Passes (suc rounds) attempts total total' input output w w' due e =
        after_attempt-Passes attempts total total' input output _ w w' _ refl
          (λ policy room.
            attempt_hook-Passes rounds (attempts + 1) (total + 1) total' input output _ w'
              (omega arith))
          e

    -- A first round is due whatever the policy: only "retry" needs the budget.
    first_attempt-Passes :
        (rounds total total' : ℕ) (input output : Bytes) (w w' : r.World)
        → (policy_of hook ≡ "retry" → max_retries ≤ℤ pos (total + suc rounds))
        → attempt_hook r hook max_retries limit (suc rounds) 0 total input w
          ≡ (ok (output, total'), w')
        → Passes hook input output w' w
    unfolding attempt_hook
    first_attempt-Passes rounds total total' input output w w' reach e =
        after_attempt-Passes 0 total total' input output _ w w' _ refl
          (λ policy room.
            attempt_hook-Passes rounds 1 (total + 1) total' input output _ w'
              (omega (arith, reach policy)))
          e

max_attempts-pos :
    (policy : String) (max_retries : ℤ) (total : ℕ) → 0 < max_attempts policy max_retries total
unfolding max_attempts
max_attempts-pos policy max_retries total = ground arith

allowed_lem :
    (m total : ℕ)
    → m + 1 < 2 ^ 63
    → total ≤ m
    → wrap64 (wrap64 (pos m -ℤ pos total) +ℤ pos 1) ≡ pos (m - total + 1)
allowed_lem m total small h =
    rw (difference, wrap64_small (pos (m - total)) (omega arith) (omega arith))
      (rw (one_more (m - total), wrap64_small (pos (m - total + 1)) (omega arith) (omega arith)))
  where
    difference : pos m -ℤ pos total ≡ pos (m - total)
    difference = unfold ◌-ℤ◌ in ground arith

    one_more : (n : ℕ) → pos n +ℤ pos 1 ≡ pos (n + 1)
    one_more n = unfold ◌+ℤ◌ in ground arith

-- with a budget below the largest int, the attempts reach up to it
max_attempts-reach :
    (policy : String) (max_retries : ℤ) (total : ℕ)
    → pos_part max_retries + 1 < 2 ^ 63
    → policy ≡ "retry"
    → max_retries ≤ℤ pos (total + max_attempts policy max_retries total)
unfolding max_attempts
max_attempts-reach policy (negsuc m) total small e = omega arith
max_attempts-reach policy (pos m) total small e = elim (Bool-cases (leb total m)) [
  | inl within ↦ rw (e, max_attempts) (rw (allowed_lem m total small (ground arith)) (ground arith))
  | inr past ↦ ground arith
]

module _ (r : Reconciler) where
  hook-Passes :
      (hook : HookSpec) (max_retries : ℤ) (limit total total' : ℕ) (input output : Bytes)
      (w w' : r.World)
      → IsKnown hook
      → 0 < limit
      → (policy_of hook ≡ "retry" → max_retries ≤ℤ pos (total + limit))
      → attempt_hook r hook max_retries limit limit 0 total input w ≡ (ok (output, total'), w')
      → Passes r hook input output w' w
  hook-Passes hook max_retries zero total total' input output w w' known h reach e =
      absurd (omega arith)
  hook-Passes hook max_retries (suc n) total total' input output w w' known h reach e =
      first_attempt-Passes r hook max_retries (suc n) known n total total' input output w w' reach e

  run_hooks-Chain :
      (max_retries : ℤ) (hooks : List HookSpec) (total : ℕ) (input output : Bytes) (w w' : r.World)
      → pos_part max_retries + 1 < 2 ^ 63
      → All IsKnown hooks
      → run_hooks r max_retries hooks input total w ≡ (ok output, w')
      → Chain r hooks input w output w'
  unfolding run_hooks
  run_hooks-Chain max_retries [] total input output w w' small known e =
      nil_chain (ground arith) (ground arith)
    where
      nil_chain : input ≡ output → w ≡ w' → Chain r [] input w output w'
      nil_chain p q = rw (p, q) done
  run_hooks-Chain max_retries (hook ∷ rest) total input output w w' small known e =
      let limit = max_attempts (policy_of hook) max_retries total in
      let after = attempt_hook r hook max_retries limit limit 0 total input w in
      let (between, first, later) =
        continue-ok after.0 (λ (n : Bytes × ℕ). run_hooks r max_retries rest n.0 n.1) after.1 e in
      next
        (hook-Passes hook max_retries limit total between.1 input between.0 w after.1 known.0
          (max_attempts-pos _ _ _) (max_attempts-reach _ max_retries total small)
          (λ i. (first i, after.1)))
        (run_hooks-Chain max_retries rest between.1 between.0 output after.1 w' small known.1 later)

  -- If the hooks' policies are known and the budget is below the largest int, then a run that
  -- returns has let every hook pass, in order, each on what the one before it gave: no failed
  -- "fail" or "retry" hook is skipped.
  pub execute_hooks-Chain :
      (source : ExternalSource) (hooks : List HookSpec) (input output : Bytes) (w w' : r.World)
      → pos_part (budget r source.spec.max_retries) + 1 < 2 ^ 63
      → All IsKnown hooks
      → execute_hooks r source input hooks w ≡ (ok output, w')
      → Chain r hooks input w output w'
  unfolding execute_hooks
  execute_hooks-Chain source hooks input output w w' =
      run_hooks-Chain (budget r source.spec.max_retries) hooks 0 input output w w'
