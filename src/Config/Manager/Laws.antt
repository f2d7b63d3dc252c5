-- ===== src/Config/Manager/Laws.antt =====
-- What `LoadConfig` returns.
use flux_externalsource_cont.Prelude.{String, ◌≡◌, refl, sym, ap, ◌∙◌, subst, Result, ok, err}
use flux_externalsource_cont.Config.{Config}
use flux_externalsource_cont.Config.Floats.{Floats}
use flux_externalsource_cont.Config.Load.{Environment, load_from_environment}
use flux_externalsource_cont.Config.Load.Laws.{load_from_environment-twice}
use flux_externalsource_cont.Config.Validate.{validate, default_config}
use flux_externalsource_cont.Config.Validate.Laws.{IsValid, validate_iff}
use flux_externalsource_cont.Config.ConfigMap.{Unmarshal}
use flux_externalsource_cont.Config.Manager.{Manager, from_config_map, checked, load_config}

module _ (env : Environment) (f : Floats) (unmarshal : Unmarshal f.Float) where
  checked-ok :
      (c d : Config f.Float) (x : Result String (Unit {0}))
      → checked env f unmarshal c x ≡ ok d
      → (x ≡ ok tt) × (c ≡ d)
  checked-ok c d (ok _) e = (refl, cc)
  checked-ok c d (err m) e = cc

  -- A configuration that `LoadConfig` returns is valid, and loading the environment into it
  -- changes nothing: whatever the ConfigMap held, a variable that is set and can be read has its
  -- value there.
  pub load_config-IsValid :
      (m : Manager) (c : Config f.Float)
      → load_config env f unmarshal m ≡ ok c
      → IsValid f c × (load_from_environment env f c ≡ c)
  unfolding load_config
  load_config-IsValid m c e =
      let given =
        from_config_map env f unmarshal m.client m.config_map_namespace m.config_map_name
          (default_config f) in
      let h = checked-ok (load_from_environment env f given) c _ e in
      (
        (validate_iff f c).0 (ap (validate f) (sym h.1) ∙ h.0),
        subst (λ x. load_from_environment env f x ≡ x) h.1
            (load_from_environment-twice env f given),
      )
