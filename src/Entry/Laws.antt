-- ===== src/Entry/Laws.antt =====
-- What is there when the process has started.
use flux_externalsource_cont.Prelude.{
  String, ◌≡◌, refl, sym, ap, ◌∙◌, subst, Bool-cases, inl, inr, Option, none, some, Result, ok,
}
use flux_externalsource_cont.Prelude.Actions.{Action, pure, lift, continue-ok, ◌>>=◌}
use flux_externalsource_cont.Config.{Config}
use flux_externalsource_cont.Config.Floats.{Floats}
use flux_externalsource_cont.Config.Load.{Environment}
use flux_externalsource_cont.Config.ConfigMap.{Client, Unmarshal}
use flux_externalsource_cont.Config.Manager.{new_manager, load_config}
use flux_externalsource_cont.Generator.Factory.{Factory}
use flux_externalsource_cont.Hooks.{HookExecutor}
use flux_externalsource_cont.Metrics.Prometheus.{Vectors}
use flux_externalsource_cont.Artifact.Manager.{manager}
use flux_externalsource_cont.Artifact.Server.{Server, new_server}
use flux_externalsource_cont.Controller.Setup.{
  Backend, Surroundings, Components, setup_with_manager, executor_or_new, register,
}
use flux_externalsource_cont.Entry.{
  Flags, Launched, override_artifact_server, shared_backend, serves, server_over, start_with,
  start_configured, main,
}

ok_inj {κ} : {A : Type κ} {a b : A} → Path (Result String A) (ok a) (ok b) → a ≡ b
ok_inj e = cc

some_inj {ℓ} : {A : Type ℓ} {a b : A} → some a ≡ some b → a ≡ b
some_inj e = cc

none-ne-some {ℓ} : {A : Type ℓ} {a : A} → none ≡ some a → ⊥
none-ne-some e = cc

module _ {W : Type 0} (around : Surroundings W) where
  -- the manager stores where the backend says
  abbrev pub Shares : Components W → Backend → Type 0
  Shares c backend =
      (c.storage_backend ≡ some backend)
      × (c.artifact_manager ≡ some (manager around.packing (around.storage_of backend)))

  register-Shares :
      {F : Type 0} (config : Config F) (given : Option (Factory W)) (executor : HookExecutor W)
      (backend : Backend) (c : Components W) (w w' : W)
      → register around config given executor
          (manager around.packing (around.storage_of backend), some backend)
          w
        ≡ (ok c, w')
      → Shares c backend
  unfolding register pure lift ◌>>=◌
  register-Shares config given executor backend c w w' e =
      let (completed, first, final) = continue-ok (around.complete w).0 _ _ e in
      let same = ok_inj (ap (λ x. x.0) final) in
      (
        ap (λ (x : Components W). x.storage_backend) (sym same),
        ap (λ (x : Components W). x.artifact_manager) (sym same),
      )

  setup_with_manager-Shares :
      {F : Type 0} (config : Config F) (backend : Backend) (c : Components W) (w w' : W)
      → setup_with_manager around config
          (record {
            generator_factory = none;
            hook_executor = none;
            artifact_manager = none;
            storage_backend = some backend;
          })
          w
        ≡ (ok c, w')
      → Shares c backend
  unfolding setup_with_manager pure ◌>>=◌
  setup_with_manager-Shares config backend c w w' e =
      let (executor, first, rest) = continue-ok (executor_or_new around config none w).0 _ _ e in
      register-Shares config none executor backend c _ w' rest

  server_over-some :
      {F : Type 0} (config : Config F) (backend : Option Backend) (s : Server W)
      → server_over around config backend ≡ some s
      → (b : Backend) × (backend ≡ some b)
        × (s ≡ new_server (around.storage_of b) config.artifact_server.port)
  server_over-some config none s e = cc
  server_over-some config (some b) s e = elim (Bool-cases (serves around config)) [
    | inl on ↦ (b, refl, sym (some_inj (rw on at e)))
    | inr off ↦ absurd (none-ne-some (rw off at e))
  ]

  start_with-Shares :
      {F : Type 0} (config : Config F) (vectors : Vectors W) (add_checks : Action W (Unit {0}))
      (backend : Option Backend) (s : Server W) (l : Launched F W) (w w' : W)
      → start_with around config vectors add_checks backend w ≡ (ok l, w')
      → l.artifact_server ≡ some s
      → (b : Backend) × (backend ≡ some b)
        × Shares l.components b
        × (s ≡ new_server (around.storage_of b) config.artifact_server.port)
        × (l.config ≡ config)
  unfolding start_with pure ◌>>=◌
  start_with-Shares {F = F} config vectors add_checks backend s l w w' e running =
      let parts : Components W = record {
        generator_factory = none;
        hook_executor = none;
        artifact_manager = none;
        storage_backend = backend;
      } in
      let (components, first, rest) =
        continue-ok (setup_with_manager around config parts w).0 _ _ e in
      let (checked, second, final) = continue-ok (add_checks _).0 _ _ rest in
      let same = ok_inj (ap (λ x. x.0) final) in
      let (b, given, over) =
        server_over-some config backend s
          (ap (λ (x : Launched F W). x.artifact_server) same ∙ running) in
      let (stored, managed) = setup_with_manager-Shares config b components w _ (
        subst
          (λ o.
            setup_with_manager around config
              (record {
                generator_factory = none;
                hook_executor = none;
                artifact_manager = none;
                storage_backend = o;
              })
              w
            ≡ (ok components, (setup_with_manager around config parts w).1))
          given λ i. (first i, (setup_with_manager around config parts w).1)) in
      (
        b,
        given,
        (
          ap (λ (x : Launched F W). x.components.storage_backend) (sym same) ∙ stored,
          ap (λ (x : Launched F W). x.components.artifact_manager) (sym same) ∙ managed,
        ),
        over,
        ap (λ (x : Launched F W). x.config) (sym same),
      )

  -- If the process starts, and an artifact server with it, then one backend was made for both: the
  -- controller's artifact manager stores in that which the server reads, the same in its address,
  -- and the server listens on the port of the flag, whatever the configuration says.
  pub main-Shares :
      (f : Floats) (env : Environment) (unmarshal : Unmarshal f.Float) (client : Client)
      (flags : Flags) (vectors : Vectors W) (add_checks : Action W (Unit {0}))
      (l : Launched f.Float W) (s : Server W) (w w' : W)
      → main around f env unmarshal client flags vectors add_checks w ≡ (ok l, w')
      → l.artifact_server ≡ some s
      → (backend : Backend) × ((shared_backend around l.config (env.getenv "POD_NAME") w).0
          ≡ ok (some backend))
        × Shares l.components backend
        × (s ≡ new_server (around.storage_of backend) flags.artifact_server_port)
        × (l.config.artifact_server.port ≡ flags.artifact_server_port)
  unfolding main start_configured lift ◌>>=◌
  main-Shares f env unmarshal client flags vectors add_checks l s w w' e running =
      let (loaded, first, rest) =
        continue-ok (load_config env f unmarshal (new_manager env (some client))) _ w e in
      let config = override_artifact_server flags loaded in
      let (backend, second, final) =
        continue-ok (shared_backend around config (env.getenv "POD_NAME") w).0 _ _ rest in
      let (b, given, shares, over, same) =
        start_with-Shares config vectors add_checks backend s l _ w' final running in
      (
        b,
        subst (λ c. (shared_backend around c (env.getenv "POD_NAME") w).0 ≡ ok (some b)) (sym same)
            (second ∙ ap ok given),
        shares,
        over,
        ap (λ (c : Config f.Float). c.artifact_server.port) same,
      )
