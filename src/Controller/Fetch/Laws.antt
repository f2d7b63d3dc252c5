-- ===== src/Controller/Fetch/Laws.antt =====
-- What a fetch that returns has done, and what one with an unchanged ETag leaves alone.
use flux_externalsource_cont.Prelude.{
  String, ◌≡◌, ◌≢◌, refl, Bool, true, false, not, ◌&&◌, some, Result, ok, err, ◌==◌, eq_iff,
  eq_refl, ap, subst, if◌then◌else◌, arith, Bool-cases, ◌⊎◌, inl, inr,
}
use flux_externalsource_cont.Prelude.Actions.{continue-ok, bind-of_ok, pure, ◌>>=◌}
use flux_externalsource_cont.Api.{condition_true}
use flux_externalsource_cont.Generator.{SourceGenerator, GeneratorConfig}
use flux_externalsource_cont.Controller.Reconciler.{Reconciler}
use flux_externalsource_cont.Controller.Pass.{Pass, Act, on_world}
use flux_externalsource_cont.Controller.Conditions.{
  set_progress_condition, fetching_condition, set_ready_condition, ready_condition,
  succeeded_reason, progressing_reason,
}
use flux_externalsource_cont.Controller.Conditions.Laws.{ConditionLaws, condition_shown}
use flux_externalsource_cont.Controller.Fetch.{
  after_check, check_again, check_unchanged, fetch, check_and_fetch, with_config, reconcile,
}
use flux_externalsource_cont.Controller.Settings.{create_generator_config}

module _ (r : Reconciler) where
  -- a property of every state that an action returns in
  abbrev Ends : {A : Type 0} → (A → Pass r → Type 0) → Act r A → Type 0
  Ends {A} P m = (s s' : Pass r) (a : A) → m s ≡ (ok a, s') → P a s'

  Ends-bind :
      {A B : Type 0} (P : B → Pass r → Type 0) (m : Act r A) (f : A → Act r B)
      → ((a : A) → Ends P (f a))
      → Ends P (m >>= f)
  unfolding ◌>>=◌
  Ends-bind P m f k s s' b e = let (a, _, h) = continue-ok (m s).0 f (m s).1 e in k a (m s).1 s' b h

  -- the condition of an object that is ready, at its generation
  abbrev pub IsReady : Pass r → Type 0
  IsReady s =
      condition_shown r s ready_condition
      ≡ some (record {
        status = condition_true;
        reason = succeeded_reason;
        message = "ExternalSource is ready";
        observed_generation = s.source.metadata.generation;
      })

  -- the object of a pass that found its ETag unchanged
  unfoldable marked : Pass r → Pass r
  unfolding set_progress_condition set_ready_condition
  marked s =
      (set_ready_condition r condition_true succeeded_reason "ExternalSource is ready"
        (set_progress_condition r fetching_condition false succeeded_reason "No changes detected"
          s).1).1

  abbrev is_same : String → String → Bool
  is_same current etag = not (current == "") && current == etag

  after_check-same :
      (s : Pass r) (etag current : String)
      → is_same current etag ≡ true
      → after_check r etag (ok current) s ≡ (ok true, marked s)
  unfolding after_check marked
  after_check-same s etag current same = rw (same, after_check) refl

  after_check-changed :
      (s : Pass r) (etag current : String)
      → is_same current etag ≡ false
      → after_check r etag (ok current) s ≡ (ok false, s)
  unfolding after_check
  after_check-changed s etag current changed = rw (changed, after_check) refl

  module _ (laws : ConditionLaws r) where
    set_ready_condition-Ends :
        Ends
          (λ _. IsReady)
          (set_ready_condition r condition_true succeeded_reason "ExternalSource is ready")
    unfolding set_ready_condition
    set_ready_condition-Ends s s' a e =
        subst IsReady (ap (λ p. p.1) e) (laws.find-set ready_condition _ s.source.status.conditions)

    fetch-Ends :
        (g : SourceGenerator r.World) (c : GeneratorConfig) → Ends (λ _. IsReady) (fetch r g c)
    unfolding fetch
    fetch-Ends g c = search (Ends-bind, set_ready_condition-Ends) depth 16

    marked-IsReady : (s : Pass r) → IsReady (marked s)
    unfolding marked
    marked-IsReady s = laws.find-set ready_condition _ _

    after_check-Ends :
        (etag : String) (x : Result String String)
        → Ends (λ b s. (b ≡ false) ⊎ IsReady s) (after_check r etag x)
    unfolding after_check
    after_check-Ends etag (err m) s s' a e = inl (ground arith)
    after_check-Ends etag (ok current) s s' a e = elim (Bool-cases (is_same current etag)) [
      | inl same ↦ inr (subst IsReady (ap (λ p. p.1) (rw after_check-same at e)) (marked-IsReady s))
      | inr changed ↦ inl (ground (after_check-changed s etag current changed, arith))
    ]

    check_again-Ends :
        (g : SourceGenerator r.World) (c : GeneratorConfig) (etag : String)
        → Ends (λ b s. (b ≡ false) ⊎ IsReady s) (check_again r etag g c)
    unfolding check_again
    check_again-Ends g c etag = search (Ends-bind, after_check-Ends)

    check_unchanged-Ends :
        (g : SourceGenerator r.World) (c : GeneratorConfig)
        → Ends (λ b s. (b ≡ false) ⊎ IsReady s) (check_unchanged r g c)
    unfolding check_unchanged
    check_unchanged-Ends g c s s' a e =
        elim (Bool-cases
          (g.supports_conditional_fetch && not (s.source.status.last_handled_etag == ""))) [
            | inl asks ↦ check_again-Ends g c _ s s' a (rw (asks, check_unchanged) at e)
            | inr free ↦ inl (ground arith)
          ]

    after_answer-Ends :
        (g : SourceGenerator r.World) (c : GeneratorConfig) (b : Bool) (s s' : Pass r)
        (a : Unit {0})
        → (b ≡ false) ⊎ IsReady s
        → (if b then pure tt else fetch r g c) s ≡ (ok a, s')
        → IsReady s'
    unfolding pure
    after_answer-Ends g c false s s' a k e = fetch-Ends g c s s' a e
    after_answer-Ends g c true s s' a (inl k) e = absurd (cc)
    after_answer-Ends g c true s s' a (inr k) e = subst IsReady (ap (λ p. p.1) e) k

    check_and_fetch-Ends :
        (g : SourceGenerator r.World) (c : GeneratorConfig)
        → Ends (λ _. IsReady) (check_and_fetch r g c)
    unfolding check_and_fetch
    check_and_fetch-Ends g c s s' a e =
        let (b, answer, h) =
          continue-ok (check_unchanged r g c s).0 _ (check_unchanged r g c s).1 e in
        after_answer-Ends g c b _ s' a
          (check_unchanged-Ends g c s _ b (λ i. (answer i, (check_unchanged r g c s).1))) h

    with_config-Ends :
        (c : Result String GeneratorConfig) (g : Result String (SourceGenerator r.World))
        → Ends (λ _. IsReady) (with_config r c g)
    with_config-Ends (err e) g s s' a h = absurd (cc)
    with_config-Ends (ok c) (err e) s s' a h = absurd (cc)
    with_config-Ends (ok c) (ok g) s s' a h = check_and_fetch-Ends g c s s' a h

    -- Where conditions behave as documented, a fetch that returns without an error leaves the
    -- object ready at its generation.
    pub reconcile-IsReady : (s s' : Pass r) → reconcile r s ≡ (ok tt, s') → IsReady s'
    unfolding reconcile
    reconcile-IsReady s s' h =
        with_config-Ends (create_generator_config s.source)
          (r.create_generator s.source.spec.generator.type) s s' tt h

  -- the object of a pass that asked for the ETag
  unfoldable asked : SourceGenerator r.World → GeneratorConfig → Pass r → Pass r
  unfolding set_progress_condition on_world
  asked g c s =
      (on_world r (g.get_last_modified c)
        (set_progress_condition r fetching_condition true progressing_reason "Checking for updates"
          s).1).1

  check_again-same :
      (s : Pass r) (c : GeneratorConfig) (g : SourceGenerator r.World) (etag : String)
      → is_same etag etag ≡ true
      → (g.get_last_modified c s.world).0 ≡ ok etag
      → check_again r etag g c s ≡ (ok true, marked (asked g c s))
  unfolding check_again asked
  check_again-same s c g etag same answer = rw answer (after_check-same _ etag etag same)

  is_same_refl : (etag : String) → etag ≢ "" → is_same etag etag ≡ true
  is_same_refl etag h = ground (arith, eq_iff etag "", eq_refl etag)

  reconcile-marked :
      (s : Pass r) (c : GeneratorConfig) (g : SourceGenerator r.World)
      → create_generator_config s.source ≡ ok c
      → r.create_generator s.source.spec.generator.type ≡ ok g
      → g.supports_conditional_fetch ≡ true
      → s.source.status.last_handled_etag ≢ ""
      → (g.get_last_modified c s.world).0 ≡ ok s.source.status.last_handled_etag
      → reconcile r s ≡ (ok tt, marked (asked g c s))
  unfolding reconcile check_and_fetch check_unchanged pure
  reconcile-marked s c g config generator conditional some_etag answer =
      let same = is_same_refl s.source.status.last_handled_etag some_etag in
      let asks : g.supports_conditional_fetch && not (s.source.status.last_handled_etag == "")
          ≡ true =
        ground arith in
      rw config (
        rw generator (
          bind-of_ok (check_unchanged r g c) _ s (marked (asked g c s)) true (
            rw (asks, check_unchanged)
              (check_again-same s c g s.source.status.last_handled_etag same answer))))

  -- With an ETag on record that the source still has, and a generator that can be asked for it, a
  -- pass returns without an error, and its only effect on the world is the request for the ETag:
  -- nothing is fetched, run, stored or published. The artifact and the ETag in the status stay.
  pub reconcile-unchanged :
      (s : Pass r) (c : GeneratorConfig) (g : SourceGenerator r.World)
      → create_generator_config s.source ≡ ok c
      → r.create_generator s.source.spec.generator.type ≡ ok g
      → g.supports_conditional_fetch ≡ true
      → s.source.status.last_handled_etag ≢ ""
      → (g.get_last_modified c s.world).0 ≡ ok s.source.status.last_handled_etag
      → (let t = (reconcile r s).1 in
          ((reconcile r s).0 ≡ ok tt)
          × (t.world ≡ (g.get_last_modified c s.world).1)
          × (t.source.status.artifact ≡ s.source.status.artifact)
          × (t.source.status.last_handled_etag ≡ s.source.status.last_handled_etag))
  unfolding marked asked
  reconcile-unchanged s c g config generator conditional some_etag answer =
      rw (reconcile-marked s c g config generator conditional some_etag answer)
        (refl, refl, refl, refl)
