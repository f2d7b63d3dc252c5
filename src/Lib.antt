-- ===== src/Lib.antt =====
-- The ExternalSource controller: it fetches data from outside a cluster at an interval, runs the
-- data through hooks, stores the result as an artifact, and publishes the artifact in an
-- ExternalArtifact, which Flux reads.
--
-- The parts, from the repository's root:
--   api/v1alpha1/externalsource_types.go: the resource. Api has its types, with the fields of the
--     object's metadata and of conditions that the controller uses.
--   internal/controller/externalsource_controller.go: the reconciler, in Controller. Its receiver
--     is the record Reconciler: the components that it calls, and what it takes from Kubernetes
--     (API server, finalizers, conditions) and from packages fmt, time and math, as parameters
--     that act on one World. A method on the pointer externalSource is an action on a Pass, the
--     object beside the world, and keeps what it has written when it returns an error.
--       Controller/Conditions: setCondition to getConditionMessage.
--       Controller/Errors: classifyError, contains and findSubstring.
--       Controller/Retry: calculateRetryDelay to shouldResetRetryCount.
--       Controller/HookRun: executeHooks.
--       Controller/Publish: reconcileExternalArtifact, updateExternalArtifactStatusWithRetry and
--         mapsEqual.
--       Controller/Recovery: needsRecovery and performRecovery.
--       Controller/Settings and Controller/Fetch: createGeneratorConfig and reconcile.
--       Controller/Delete: reconcileDelete, and the writes of the object.
--       Controller/Failure and Controller/Reconcile: Reconcile, whose end, from the outcome of
--         reconcile on, is conclude, and which itself is reconcile_request.
--       Controller/Setup: SetupWithManager.
--       Controller/Steady: no code, but what all methods leave alone, one file to a caller.
--   internal/config: the configuration. config.go: Config has the records, Config/Load the
--     environment, Config/Validate the defaults and Validate. configmap.go: Config/ConfigMap.
--     manager.go: Config/Manager.
--   internal/artifact: Artifact has the interface, Artifact/Manager the manager, Artifact/Server
--     the HTTP server, whose replies are values.
--   internal/storage: Storage has the interface, Storage/Memory the memory backend, Storage/Pvc the
--     one on a file system, Storage/S3 the one on a bucket.
--   internal/hooks: Hooks has the interfaces, Hooks/Whitelist the file whitelist, Hooks/Executor
--     the client of the sidecar, Hooks/Protocol the messages of the two and the network between
--     them.
--   cmd/externalsource-hook-executor/main.go: the sidecar, Hooks/Sidecar. Hooks/Remote puts the
--     client and the sidecar together.
--   internal/generator: Generator has the interface, Generator/Factory the factory, Generator/Http
--     the generator for URLs.
--   internal/metrics: Metrics has interface.go and noop.go, Metrics/Prometheus prometheus.go. A
--     recorder changes the world only.
--   cmd/main.go: Entry, from the loading of the configuration to the start of the manager.
--   Cluster has the types of the API server's answers; Prelude has what all parts share; Tests has
--     a small cluster, and small networks, files and buckets, on which the theorems with conditions
--     are applied.
--
-- How the parts meet: Reconcile reads the object, and runs reconcile on it, which asks a generator
-- from the factory for the data, has the hook executor run the hooks, gives the result to the
-- artifact manager, which has it in a storage backend, and publishes the URL. Each component is a
-- record of functions in the Reconciler. The components also stand on their own here, over the Go
-- library, the network, the file system and Kubernetes as parameters: the settings that the
-- controller writes meet the generator that reads them, the hooks' client meets the sidecar, the
-- artifact manager meets a backend and the server that reads it, and Entry makes them all.
--
-- Conventions. A Go int, int64 or Duration is an integer, and an operation that can overflow has
-- the wrap-around written out (wrap64). A map is an association list, in the order in which Go
-- visits it. A pointer to a backend is its address with what its constructor made. An error is its
-- message. Texts stand for Go's strings by their code points. float64 is a parameter
-- (Config/Floats): only the exponential and the jitter of a delay use it.
--
-- Loops. The rounds of updateExternalArtifactStatusWithRetry are a recursion on the rounds left,
-- from 10, the constant of the code. The attempts at one hook are a recursion on the attempts
-- left, from maxAttempts. The removal of empty directories by the PVC backend is a recursion on a
-- bound, one more than the length of the path, which Storage/Pvc/Cleanup shows to be enough. All
-- else is recursion on a list or a text.
--
-- Not modelled: the pauses between two attempts, logging, the durations in metrics, and contexts,
-- which have no effect on the results here; the vectors of the Prometheus recorder and their
-- registry, which are third-party; the flags, webhooks and managers of third parties in cmd/main.go, and the
-- main of the sidecar, which parses flags and listens; and the generated code of api/v1alpha1.
pub mod Prelude
pub mod Api
pub mod Config
pub mod Cluster
pub mod Generator
pub mod Hooks
pub mod Artifact
pub mod Storage
pub mod Metrics
pub mod Controller
pub mod Entry
pub mod Tests
