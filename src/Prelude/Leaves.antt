-- ===== src/Prelude/Leaves.antt =====
-- Actions that leave one observation of the state as it is.
use mathlib.Core.Path.{◌≡◌, refl, ◌∙◌}
use mathlib.Core.Bool.{Bool, true, false}
use Prim.Native.String.{String}
use flux_externalsource_cont.Prelude.Tests.{if◌then◌else◌}
use flux_externalsource_cont.Prelude.Results.{Result, ok, err}
use flux_externalsource_cont.Prelude.Actions.{
  Action, continue, pure, raise, gets, attempt, wrap, ◌>>=◌,
}

pub record Leaves {S X A : Type 0} (f : S → X) (m : Action S A) : Type 0 where
  pub leaves : (s : S) → f (m s).1 ≡ f s

module _ {S X : Type 0} where
  module _ {f : S → X} {A : Type 0} where
    pub pure-Leaves : (a : A) → Leaves f (pure a)
    unfolding pure
    pure-Leaves a = record { leaves = λ s. refl }

    pub raise-Leaves : (e : String) → Leaves {A = A} f (raise e)
    unfolding raise
    raise-Leaves e = record { leaves = λ s. refl }

    pub gets-Leaves : (g : S → A) → Leaves f (gets g)
    unfolding gets
    gets-Leaves g = record { leaves = λ s. refl }

    pub attempt-Leaves : (m : Action S A) → Leaves f m → Leaves f (attempt m)
    unfolding attempt
    attempt-Leaves m k = record { leaves = k.leaves }

    pub wrap-Leaves : (g : String → String) (m : Action S A) → Leaves f m → Leaves f (wrap g m)
    unfolding wrap
    wrap-Leaves g m k = record { leaves = k.leaves }

    pub if-Leaves :
        (b : Bool) (m n : Action S A) → Leaves f m → Leaves f n → Leaves f (if b then m else n)
    if-Leaves true m n k l = k
    if-Leaves false m n k l = l

  module _ {f : S → X} {A B : Type 0} where
    continue-Leaves :
        (x : Result String A) (k : A → Action S B) (s : S)
        → ((a : A) → Leaves f (k a))
        → f (continue x k s).1 ≡ f s
    continue-Leaves (ok a) k s rest = (rest a).leaves s
    continue-Leaves (err e) k s rest = refl

    pub bind-Leaves :
        (m : Action S A) (k : A → Action S B)
        → Leaves f m
        → ((a : A) → Leaves f (k a))
        → Leaves f (m >>= k)
    unfolding ◌>>=◌
    bind-Leaves m k first rest = record {
      leaves = λ s. continue-Leaves (m s).0 k (m s).1 rest ∙ first.leaves s;
    }

pub ruleset leaves =
    (pure-Leaves, raise-Leaves, gets-Leaves, attempt-Leaves, wrap-Leaves, if-Leaves, bind-Leaves)
