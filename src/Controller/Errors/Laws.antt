-- ===== src/Controller/Errors/Laws.antt =====
-- What `classifyError` answers.
use flux_externalsource_cont.Prelude.{
  String, ◌≡◌, refl, ◌↔◌, Bool, true, false, if◌then◌else◌, List, [], ◌∷◌, ◌⊎◌, arith,
}
use flux_externalsource_cont.Prelude.Text.{codes}
use flux_externalsource_cont.Controller.Errors.{
  mentions, classify_error, config_errors, permanent_errors, transient_error, permanent_error,
  configuration_error,
}
use flux_externalsource_cont.Controller.Errors.Substring.{Occurs, contains_iff}

-- One of the patterns occurs in the message.
abbrev pub Mentions : String → List String → Type 0
Mentions err_str [] = ⊥
Mentions err_str (pattern ∷ rest) = Occurs (codes pattern) (codes err_str) ⊎ Mentions err_str rest

mentions_iff :
    (err_str : String) (patterns : List String)
    → (mentions err_str patterns ≡ true) ↔ Mentions err_str patterns
unfolding mentions
mentions_iff err_str [] = (λ h. cc, λ m. absurd m)
mentions_iff err_str (p ∷ ps) =
    ground (arith, contains_iff (codes err_str) (codes p), mentions_iff err_str ps)

-- the ladder of `classify_error`, with each test known to decide its statement
module _ {C P : Type 0} where
  from_tests :
      (c p : Bool)
      → (c ≡ true) ↔ C
      → (p ≡ true) ↔ P
      → (let answer =
            if c then configuration_error else if p then permanent_error else transient_error in
          ((answer ≡ configuration_error) ↔ C)
          × ((answer ≡ permanent_error) ↔ (¬ C × P))
          × ((answer ≡ transient_error) ↔ (¬ C × ¬ P)))
  from_tests true p hc hp = (
    (λ _. hc.0 refl, λ _. refl),
    (λ e. cc, λ x. absurd (x.0 (hc.0 refl))),
    (λ e. cc, λ x. absurd (x.0 (hc.0 refl))),
  )
  from_tests false true hc hp = (
    (λ e. cc, λ x. cc (hc.1 x)),
    (λ _. (λ x. cc (hc.1 x), hp.0 refl), λ _. refl),
    (λ e. cc, λ x. absurd (x.1 (hp.0 refl))),
  )
  from_tests false false hc hp = (
    (λ e. cc, λ x. cc (hc.1 x)),
    (λ e. cc, λ x. cc (hp.1 x.1)),
    (λ _. (λ x. cc (hc.1 x), λ x. cc (hp.1 x)), λ _. refl),
  )

-- A message is a configuration error exactly if it mentions a configuration pattern; a permanent
-- one exactly if it mentions none of these and a permanent pattern; and transient exactly if it
-- mentions no pattern at all.
pub classify_error_iff :
    (err_str : String)
    → ((classify_error err_str ≡ configuration_error) ↔ Mentions err_str config_errors)
      × ((classify_error err_str ≡ permanent_error)
          ↔ (¬ Mentions err_str config_errors × Mentions err_str permanent_errors))
      × ((classify_error err_str ≡ transient_error)
          ↔ (¬ Mentions err_str config_errors × ¬ Mentions err_str permanent_errors))
unfolding classify_error
classify_error_iff s =
    from_tests (mentions s config_errors) (mentions s permanent_errors)
      (mentions_iff s config_errors) (mentions_iff s permanent_errors)
