-- ===== src/Entry.antt =====
-- cmd/main.go: the process, from the loading of its configuration to the start of the manager. An
-- exit is an error. The flags of controller-runtime's manager, its webhooks and its metrics server
-- are left out.
pub mod Laws
use Prim.Native.String.{◌++◌}
use flux_externalsource_cont.Prelude.{
  ℕ, String, Bool, true, false, not, ◌&&◌, ◌||◌, Option, none, some, List, [], ◌∷◌, Result, ok, err,
  ◌==◌, if◌then◌else◌,
}
use flux_externalsource_cont.Prelude.Int.{ℤ}
use flux_externalsource_cont.Prelude.Actions.{Action, pure, raise, lift, wrap, ◌>>=◌}
use flux_externalsource_cont.Config.{Config, ArtifactServerConfig}
use flux_externalsource_cont.Config.Floats.{Floats}
use flux_externalsource_cont.Config.Load.{Environment}
use flux_externalsource_cont.Config.ConfigMap.{Client, Unmarshal}
use flux_externalsource_cont.Config.Manager.{new_manager, load_config}
use flux_externalsource_cont.Metrics.{MetricsRecorder, new_no_op_recorder}
use flux_externalsource_cont.Metrics.Prometheus.{Vectors, new_prometheus_recorder, metrics_of}
use flux_externalsource_cont.Storage.Memory.{new_memory_backend}
use flux_externalsource_cont.Storage.Pvc.{new_pvc_backend}
use flux_externalsource_cont.Artifact.Server.{Server, new_server}
use flux_externalsource_cont.Controller.Setup.{
  Backend, memory_backend, pvc_backend, new_backend, Surroundings, Components, setup_with_manager,
  service_url,
}

-- the flags of the artifact server
pub record Flags : Type 0 where
  pub artifact_server_port : ℤ
  pub artifact_server_enabled : Bool

-- what has been made when the manager starts; the artifact server runs if there is one
pub record Launched (F W : Type 0) : Type 0 where
  pub config : Config F
  pub metrics_recorder : MetricsRecorder W
  pub components : Components W
  pub artifact_server : Option (Server W)

abbrev pub override_artifact_server : {F : Type 0} → Flags → Config F → Config F
override_artifact_server flags c = record c {
  artifact_server = record {
    enabled = flags.artifact_server_enabled;
    port = flags.artifact_server_port;
    service_name = c.artifact_server.service_name;
    service_namespace = c.artifact_server.service_namespace;
  };
}

module _ {W : Type 0} (around : Surroundings W) where
  -- "http://%s.%s.%s.svc.cluster.local:%d"
  abbrev pub pod_url : (pod_name : String) → ArtifactServerConfig → String
  pod_url pod_name c =
      "http://"
      ++ (pod_name
          ++ ("."
              ++ (c.service_name
                  ++ ("."
                      ++ (c.service_namespace
                          ++ (".svc.cluster.local:" ++ around.print_int c.port))))))

  module _ {F : Type 0} (config : Config F) where
    abbrev pub memory_base_url : (pod_name : String) → String
    memory_base_url pod_name =
        if config.artifact_server.enabled
        then (if not (pod_name == "")
            then pod_url pod_name config.artifact_server
            else service_url around config config.artifact_server)
        else ""

    abbrev pub pvc_base_url : (pod_name : String) → Result String String
    pvc_base_url pod_name =
        if config.artifact_server.enabled
        then (if pod_name == ""
            then err "POD_NAME environment variable is required for PVC backend"
            else ok (pod_url pod_name config.artifact_server))
        else ok ""

    -- The backend that the controller and the artifact server share; the controller makes its own
    -- for S3.
    unfoldable pub shared_backend : (pod_name : String) → Action W (Option Backend)
    unfolding new_backend new_memory_backend new_pvc_backend pure lift ◌>>=◌
    shared_backend pod_name =
        if config.storage.backend == "memory"
        then (do
          backend ←
              new_backend around
                (memory_backend (new_memory_backend (memory_base_url pod_name ∷ [])))
          pure (some backend))
        else if config.storage.backend == "pvc"
        then (do
          base_url ← lift (pvc_base_url pod_name)
          created ← new_pvc_backend around.files config.storage.pvc.path base_url
          backend ← new_backend around (pvc_backend created)
          pure (some backend))
        else pure none

    abbrev pub serves : Bool
    serves =
        (config.storage.backend == "memory" || config.storage.backend == "pvc")
        && config.artifact_server.enabled

    abbrev pub server_over : Option Backend → Option (Server W)
    server_over none = none
    server_over (some backend) =
        if serves
        then some (new_server (around.storage_of backend) config.artifact_server.port)
        else none

    abbrev pub recorder : (vectors : Vectors W) → MetricsRecorder W
    recorder vectors =
        if config.metrics.enabled
        then metrics_of vectors new_prometheus_recorder
        else new_no_op_recorder

    -- the reconciler with the shared backend, its health checks, and the artifact server
    unfoldable pub start_with :
        (vectors : Vectors W) (add_checks : Action W (Unit {0}))
        → Option Backend
        → Action W (Launched F W)
    unfolding setup_with_manager new_server new_no_op_recorder metrics_of pure ◌>>=◌
    start_with vectors add_checks backend = do
      components ← setup_with_manager around config (record {
        generator_factory = none;
        hook_executor = none;
        artifact_manager = none;
        storage_backend = backend;
      })
      checked ← add_checks
      pure (record {
        config = config;
        metrics_recorder = recorder vectors;
        components = components;
        artifact_server = server_over backend;
      })

  module _ (f : Floats) (env : Environment) (unmarshal : Unmarshal f.Float) (client : Client)
      (flags : Flags) (vectors : Vectors W) (add_checks : Action W (Unit {0})) where
    unfoldable pub start_configured : Config f.Float → Action W (Launched f.Float W)
    unfolding shared_backend start_with
    start_configured config = do
      backend ← shared_backend config (env.getenv "POD_NAME")
      start_with config vectors add_checks backend

    unfoldable pub main : Action W (Launched f.Float W)
    unfolding new_manager load_config start_configured lift ◌>>=◌
    main = do
      loaded ← lift (load_config env f unmarshal (new_manager env (some client)))
      start_configured (override_artifact_server flags loaded)
