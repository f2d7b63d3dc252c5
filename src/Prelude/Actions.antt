-- ===== src/Prelude/Actions.antt =====
-- Go functions that change state and return an error: what was written before an error stays
-- written, so the state comes back beside the error too. An error is its message.
use Prim.Native.String.{String}
use mathlib.Core.Path.{◌≡◌, refl, ap}
use flux_externalsource_cont.Prelude.Results.{Result, ok, err, map_err}

abbrev pub Action {ℓ κ} : Type ℓ → Type κ → Type (ℓ ⊔ κ)
Action S A = S → Result String A × S

module _ {ℓ κ} {S : Type ℓ} {A : Type κ} where
  unfoldable pub pure : A → Action S A
  pure a s = (ok a, s)

  unfoldable pub raise : String → Action S A
  raise e s = (err e, s)

  -- a call that changes nothing
  unfoldable pub lift : Result String A → Action S A
  lift r s = (r, s)

  unfoldable pub gets : (S → A) → Action S A
  gets f s = (ok (f s), s)

  -- `a, err := m()`: the caller looks at the error itself.
  unfoldable pub attempt : Action S A → Action S (Result String A)
  attempt m s = let (r, s') = m s in (ok r, s')

  -- `return fmt.Errorf("…: %w", err)`
  unfoldable pub wrap : (String → String) → Action S A → Action S A
  wrap f m s = let (r, s') = m s in (map_err f r, s')

wrapped-ok {κ} :
    {A : Type κ} (g : String → String) (x : Result String A) (a : A) → map_err g x ≡ ok a → x ≡ ok a
wrapped-ok g (ok b) a e = e
wrapped-ok g (err m) a e = cc

wrap-ok {ℓ κ} :
    {S : Type ℓ} {A : Type κ} (g : String → String) (m : Action S A) (s : S) {a : A} {s' : S}
    → wrap g m s ≡ (ok a, s')
    → m s ≡ (ok a, s')
unfolding wrap
wrap-ok g m s {a} e = λ i. (wrapped-ok g (m s).0 a (ap (λ x. x.0) e) i, (e i).1)

unfoldable pub modify {ℓ} : {S : Type ℓ} → (S → S) → Action S (Unit {0})
modify f s = (ok tt, f s)

module _ {ℓ κ μ} {S : Type ℓ} {A : Type κ} {B : Type μ} where
  abbrev pub continue : Result String A → (A → Action S B) → Action S B
  continue (ok a) f s = f a s
  continue (err e) f s = (err e, s)

  -- what a chain that returns has passed through
  pub continue-ok :
      (x : Result String A) (f : A → Action S B) (s : S) {b : B} {s' : S}
      → continue x f s ≡ (ok b, s')
      → (a : A) × (x ≡ ok a) × (f a s ≡ (ok b, s'))
  continue-ok (ok a) f s e = (a, refl, e)
  continue-ok (err m) f s e = cc

  infixl 5 ◌>>=◌
  unfoldable pub ◌>>=◌ : Action S A → (A → Action S B) → Action S B
  unfolding pure raise lift gets attempt wrap modify
  ◌>>=◌ m f s = let (r, s') = m s in continue r f s'

  -- a chain that returns: its first action did, and so did the rest
  pub bind-ok :
      (m : Action S A) (f : A → Action S B) (s : S) {b : B} {s' : S}
      → (m >>= f) s ≡ (ok b, s')
      → (a : A) × (s₁ : S) × (m s ≡ (ok a, s₁)) × (f a s₁ ≡ (ok b, s'))
  unfolding ◌>>=◌
  bind-ok m f s e =
      let (a, first, rest) = continue-ok (m s).0 f (m s).1 e in
      (a, (m s).1, λ i. (first i, (m s).1), rest)

  pub wrap_bind-ok :
      (g : String → String) (m : Action S A) (f : A → Action S B) (s : S) {b : B} {s' : S}
      → (wrap g m >>= f) s ≡ (ok b, s')
      → (a : A) × (s₁ : S) × (m s ≡ (ok a, s₁)) × (f a s₁ ≡ (ok b, s'))
  wrap_bind-ok g m f s e =
      let (a, s₁, first, rest) = bind-ok (wrap g m) f s e in (a, s₁, wrap-ok g m s first, rest)

  pub lift_bind-ok :
      (g : String → String) (x : Result String A) (f : A → Action S B) (s : S) {b : B} {s' : S}
      → (wrap g (lift x) >>= f) s ≡ (ok b, s')
      → (a : A) × (x ≡ ok a) × (f a s ≡ (ok b, s'))
  unfolding wrap lift ◌>>=◌
  lift_bind-ok g (ok a) f s e = (a, refl, e)
  lift_bind-ok g (err m) f s e = cc

  -- the result and the state of a chain, from those of its first action
  pub bind-of_ok :
      (m : Action S A) (f : A → Action S B) (s s' : S) (a : A)
      → m s ≡ (ok a, s')
      → (m >>= f) s ≡ f a s'
  unfolding ◌>>=◌
  bind-of_ok m f s s' a e = rw e

  pub bind-of_err :
      (m : Action S A) (f : A → Action S B) (s s' : S) (e : String)
      → m s ≡ (err e, s')
      → (m >>= f) s ≡ (err e, s')
  unfolding ◌>>=◌
  bind-of_err m f s s' e h = rw h

infixl 5 ◌>>◌
abbrev pub ◌>>◌ {ℓ κ} : {S : Type ℓ} {B : Type κ} → Action S (Unit {0}) → Action S B → Action S B
m >> k = m >>= λ _. k
