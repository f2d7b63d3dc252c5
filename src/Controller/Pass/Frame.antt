-- ===== src/Controller/Pass/Frame.antt =====
-- The parts of the object that an action leaves alone.
use flux_externalsource_cont.Prelude.{
  String, ◌≡◌, refl, Bool, true, false, Result, ok, err, if◌then◌else◌, ◌∙◌,
}
use flux_externalsource_cont.Prelude.Int.{ℤ}
use flux_externalsource_cont.Prelude.Actions.{
  Action, continue, pure, raise, gets, attempt, wrap, ◌>>=◌,
}
use flux_externalsource_cont.Api.{ObjectMeta, ExternalSourceSpec}
use flux_externalsource_cont.Metrics.{MetricsRecorder}
use flux_externalsource_cont.Controller.Reconciler.{Reconciler}
use flux_externalsource_cont.Controller.Pass.{Pass, Act, on_world, recorded}

-- what a fetch must not change: the metadata, the spec and the observed generation
abbrev pub fixed : {r : Reconciler} → Pass r → ObjectMeta × ExternalSourceSpec × ℤ
fixed s = (s.source.metadata, s.source.spec, s.source.status.observed_generation)

abbrev pub Keeps : {r : Reconciler} {A : Type 0} → Act r A → Type 0
Keeps {r} m = (s : Pass r) → fixed (m s).1 ≡ fixed s

module _ {r : Reconciler} {A : Type 0} where
  pub pure-Keeps : (a : A) → Keeps {r = r} (pure a)
  unfolding pure
  pure-Keeps a s = refl

  pub gets-Keeps : (f : Pass r → A) → Keeps (gets f)
  unfolding gets
  gets-Keeps f s = refl

  pub attempt-Keeps : (m : Act r A) → Keeps m → Keeps (attempt m)
  unfolding attempt
  attempt-Keeps m k s = k s

  pub wrap-Keeps : (f : String → String) (m : Act r A) → Keeps m → Keeps (wrap f m)
  unfolding wrap
  wrap-Keeps f m k s = k s

  pub on_world-Keeps : (m : Action r.World A) → Keeps (on_world r m)
  unfolding on_world
  on_world-Keeps m s = refl

  pub if-Keeps : (b : Bool) (m n : Act r A) → Keeps m → Keeps n → Keeps (if b then m else n)
  if-Keeps true m n k l = k
  if-Keeps false m n k l = l

pub raise-Keeps : {r : Reconciler} (A : Type 0) (e : String) → Keeps {r = r} {A = A} (raise e)
unfolding raise
raise-Keeps A e s = refl

pub recorded-Keeps :
    {r : Reconciler} (f : MetricsRecorder r.World → r.World → r.World) → Keeps (recorded r f)
unfolding recorded
recorded-Keeps f s = refl

module _ {r : Reconciler} {A B : Type 0} where
  continue-Keeps :
      (x : Result String A) (f : A → Act r B) (s : Pass r)
      → ((a : A) → Keeps (f a))
      → fixed (continue x f s).1 ≡ fixed s
  continue-Keeps (ok a) f s k = k a s
  continue-Keeps (err e) f s k = refl

  pub bind-Keeps :
      (m : Act r A) (f : A → Act r B) → Keeps m → ((a : A) → Keeps (f a)) → Keeps (m >>= f)
  unfolding ◌>>=◌
  bind-Keeps m f k l s = continue-Keeps (m s).0 f (m s).1 l ∙ k s

pub ruleset keeps = (
  pure-Keeps, raise-Keeps, gets-Keeps, attempt-Keeps, wrap-Keeps, on_world-Keeps, if-Keeps,
  recorded-Keeps, bind-Keeps,
)
