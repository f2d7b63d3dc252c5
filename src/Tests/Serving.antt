-- ===== src/Tests/Serving.antt =====
-- The theorem on the artifact server, with the substring search of the controller.
use Prim.Native.String.{◌++◌}
use mathlib.Core.List.{◌++◌ as ◌++ᴸ◌}
use flux_externalsource_cont.Prelude.{String, ◌≡◌, refl, ap, ◌∙◌, Bool, true, ◌==◌, if◌then◌else◌}
use flux_externalsource_cont.Prelude.Int.{pos}
use flux_externalsource_cont.Prelude.Text.{codes, codes-append}
use flux_externalsource_cont.Storage.Memory.{MemoryBackend, memory_storage, has_prefix}
use flux_externalsource_cont.Artifact.Manager
use flux_externalsource_cont.Artifact.Manager.{prefix_of, key_of, cleanup}
use flux_externalsource_cont.Artifact.Server.{
  Server, http_error, served, headers_for, serve_artifact, new_server,
}
use flux_externalsource_cont.Artifact.Server.Laws.{serve_artifact-store-cleanup}
use flux_externalsource_cont.Controller.Errors
use flux_externalsource_cont.Controller.Errors.Substring.{contains_iff}
use flux_externalsource_cont.Tests.Components.{stored, packing, packed}

abbrev contains : (s part : String) → Bool
contains s part = Errors.contains (codes s) (codes part)

finds : (before part after : String) → contains (before ++ (part ++ after)) part ≡ true
finds before part after = (contains_iff _ (codes part)).1 (
  codes before,
  codes after,
  codes-append before (part ++ after) ∙ ap (λ l. codes before ++ᴸ l) (codes-append part after),
)

abbrev server : Server MemoryBackend
server = new_server memory_storage (pos 8080)

over_memory : server.storage ≡ memory_storage
unfolding new_server
over_memory = refl

serve_artifact-store-cleanup_example :
    (let key = key_of packing memory_storage "n/s" "d1" in
      let after = (Manager.store packing memory_storage packed "n/s" stored).1 in
      let kept = (cleanup packing memory_storage "n/s" "d1" after).1 in
      serve_artifact contains server "GET" ("/" ++ "artifacts/n/s/r1.tar.gz") kept ≡ (
        if key == "artifacts/n/s/r1.tar.gz"
            then served (headers_for contains server "artifacts/n/s/r1.tar.gz") packed.bytes
            else if has_prefix "artifacts/n/s/r1.tar.gz" (prefix_of packing memory_storage "n/s")
            then http_error "Artifact not found" 404
            else (serve_artifact contains server "GET" ("/" ++ "artifacts/n/s/r1.tar.gz") stored).0,
        kept,
      ))
serve_artifact-store-cleanup_example =
    serve_artifact-store-cleanup contains finds server over_memory packing packed "n/s"
      "artifacts/n/s/r1.tar.gz" stored
