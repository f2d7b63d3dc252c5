-- ===== src/Controller/Setup.antt =====
-- `SetupWithManager`: the components that the controller makes where it is given none.
use Prim.Native.String.{◌++◌}
use flux_externalsource_cont.Prelude.{
  ℕ, String, Option, none, some, [], ◌∷◌, Result, ok, err, ◌==◌, if◌then◌else◌,
}
use flux_externalsource_cont.Prelude.Int.{ℤ}
use flux_externalsource_cont.Prelude.Actions.{Action, pure, raise, lift, wrap, ◌>>=◌}
use flux_externalsource_cont.Config.{Config, ArtifactServerConfig}
use flux_externalsource_cont.Generator.Factory.{Factory, new_factory, register_generator}
use flux_externalsource_cont.Generator.Http.{
  HttpLibrary, HttpClientConfig, http_generator, new_http_generator_with_config,
}
use flux_externalsource_cont.Hooks.{HookExecutor, WhitelistManager}
use flux_externalsource_cont.Hooks.Whitelist.{
  WhitelistLibrary, FileWhitelistManager, new_file_whitelist_manager, is_allowed,
}
use flux_externalsource_cont.Hooks.Protocol.{Codec, Network}
use flux_externalsource_cont.Hooks.Executor.{new_sidecar_executor, sidecar_executor}
use flux_externalsource_cont.Storage.{StorageBackend}
use flux_externalsource_cont.Storage.Memory.{MemoryBackend, new_memory_backend}
use flux_externalsource_cont.Storage.Pvc.{FileSystem, PvcBackend, new_pvc_backend}
use flux_externalsource_cont.Storage.S3
use flux_externalsource_cont.Storage.S3.{S3Backend, new_s3_backend}
use flux_externalsource_cont.Artifact.{ArtifactManager}
use flux_externalsource_cont.Artifact.Manager.{Packing, manager}

-- a backend as its constructor made it
pub data BackendContents : Type 0 where
  s3_backend : S3Backend → BackendContents
  memory_backend : MemoryBackend → BackendContents
  pvc_backend : PvcBackend → BackendContents

-- The pointer that the constructor of a backend returns: two backends with the same contents differ
-- in the address.
pub record Backend : Type 0 where
  pub address : ℕ
  pub contents : BackendContents

-- What the components work with: the files, the network, the libraries, and controller-runtime.
pub record Surroundings (W : Type 0) : Type 1 where
  pub whitelist : WhitelistLibrary
  pub read_file : (path : String) → W → Result String String
  pub codec : Codec
  pub network : Network (codec.Body) W
  pub http : HttpLibrary W
  pub packing : Packing W
  pub files : FileSystem W
  -- Go's allocation: an address for a new object
  pub allocate : W → ℕ × W
  -- a backend that keeps its objects in the world
  pub storage_of : Backend → StorageBackend W
  -- fmt's %d
  pub print_int : ℤ → String
  -- ctrl.NewControllerManagedBy(mgr). … .Complete(r)
  pub complete : Action W (Unit {0})

-- The components of `ExternalSourceReconciler` that may be given.
pub record Components (W : Type 0) : Type 0 where
  pub generator_factory : Option (Factory W)
  pub hook_executor : Option (HookExecutor W)
  pub artifact_manager : Option (ArtifactManager W)
  pub storage_backend : Option Backend

-- `return &…{…}`
unfoldable pub new_backend : {W : Type 0} → Surroundings W → BackendContents → Action W Backend
new_backend around contents w =
    let (address, w') = around.allocate w in
    (ok (record { address = address; contents = contents }), w')

module _ {W : Type 0} (around : Surroundings W) {F : Type 0} (config : Config F) where
  -- "http://%s.%s.svc.cluster.local:%d", if the artifact server is enabled
  abbrev pub service_url : ArtifactServerConfig → String
  service_url c =
      "http://"
      ++ (c.service_name
          ++ ("." ++ (c.service_namespace ++ (".svc.cluster.local:" ++ around.print_int c.port))))

  abbrev pub service_base_url : String
  service_base_url =
      if config.artifact_server.enabled then service_url config.artifact_server else ""

  abbrev pub s3_config : S3.S3Config
  s3_config = record {
    endpoint = config.storage.s3.endpoint;
    bucket = config.storage.s3.bucket;
    region = config.storage.s3.region;
    access_key = config.storage.s3.access_key_id;
    secret_key = config.storage.s3.secret_access_key;
    use_ssl = config.storage.s3.use_ssl;
  }

  unfoldable pub create_backend : Action W Backend
  unfolding new_backend new_s3_backend new_memory_backend new_pvc_backend wrap pure raise ◌>>=◌
  create_backend =
      if config.storage.backend == "s3"
      then new_backend around (s3_backend (new_s3_backend s3_config))
      else if config.storage.backend == "memory"
      then new_backend around (memory_backend (new_memory_backend (service_base_url ∷ [])))
      else if config.storage.backend == "pvc"
      then (do
        created ←
            wrap (λ e. "failed to create PVC storage backend: " ++ e)
              (new_pvc_backend around.files config.storage.pvc.path service_base_url)
        new_backend around (pvc_backend created))
      else raise ("unsupported storage backend: " ++ config.storage.backend)

  abbrev pub backend_or_new : Option Backend → Action W Backend
  backend_or_new (some backend) = pure backend
  backend_or_new none = create_backend

  abbrev pub factory_or_new : Option (Factory W) → Factory W
  factory_or_new (some factory) = factory
  factory_or_new none = new_factory W

  abbrev pub whitelist_manager : FileWhitelistManager around.whitelist → WhitelistManager
  whitelist_manager wm = record { is_allowed = is_allowed around.whitelist wm }

  abbrev pub executor_with :
      Result String (FileWhitelistManager around.whitelist) → Result String (HookExecutor W)
  executor_with (err e) = err ("failed to load hook whitelist: " ++ e)
  executor_with (ok wm) = ok (
      sidecar_executor around.codec around.network (
        new_sidecar_executor config.hooks.sidecar_endpoint (whitelist_manager wm)
          config.hooks.default_timeout))

  abbrev pub executor_or_new : Option (HookExecutor W) → Action W (HookExecutor W)
  executor_or_new (some executor) w = (ok executor, w)
  executor_or_new none w = (
    executor_with (
        new_file_whitelist_manager around.whitelist config.hooks.whitelist_path
          (around.read_file config.hooks.whitelist_path w)),
    w,
  )

  -- the manager, and the backend that is there from then on
  abbrev pub manager_or_new :
      Option (ArtifactManager W) → Option Backend → Action W (ArtifactManager W × Option Backend)
  manager_or_new (some given) storage_backend = pure (given, storage_backend)
  manager_or_new none storage_backend = backend_or_new storage_backend >>= λ backend.
      pure (manager around.packing (around.storage_of backend), some backend)

  abbrev pub http_client_config : HttpClientConfig
  http_client_config = record {
    timeout = config.http.timeout;
    max_idle_conns = config.http.max_idle_conns;
    max_idle_conns_per_host = config.http.max_idle_conns_per_host;
    max_conns_per_host = config.http.max_conns_per_host;
    idle_conn_timeout = config.http.idle_conn_timeout;
    user_agent = config.http.user_agent;
  }

  abbrev pub with_http : Factory W → Result String (Factory W)
  with_http factory =
      let (registered, changed) =
        register_generator W "http"
          (some (http_generator around.http (new_http_generator_with_config http_client_config)))
          factory in
      elim registered [
        | ok done ↦ ok changed
        | err e ↦ err ("failed to register HTTP generator: " ++ e)
      ]

  -- the registration of the HTTP generator, and of the controller
  unfoldable pub register :
      Option (Factory W)
      → HookExecutor W
      → ArtifactManager W × Option Backend
      → Action W (Components W)
  unfolding http_generator new_http_generator_with_config register_generator lift pure ◌>>=◌
  register given executor managed = do
    factory ← lift (with_http (factory_or_new given))
    completed ← around.complete
    pure (record {
      generator_factory = some factory;
      hook_executor = some executor;
      artifact_manager = some managed.0;
      storage_backend = managed.1;
    })

  unfoldable pub setup_with_manager : Components W → Action W (Components W)
  unfolding create_backend new_sidecar_executor new_file_whitelist_manager manager register
  setup_with_manager r = do
    executor ← executor_or_new r.hook_executor
    managed ← manager_or_new r.artifact_manager r.storage_backend
    register r.generator_factory executor managed
