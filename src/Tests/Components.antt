-- ===== src/Tests/Components.antt =====
-- The theorems on the storage, the artifacts, the configuration, the whitelist and the factory.
use flux_externalsource_cont.Prelude.{
  String, ◌≡◌, refl, ◌↔◌, true, false, not, ◌&&◌, none, some, [], ◌∷◌, ok, err, ◌==◌, if◌then◌else◌,
}
use flux_externalsource_cont.Prelude.Dict.{Dict, lookup}
use flux_externalsource_cont.Generator.Factory.{Factory}
use flux_externalsource_cont.Artifact.{Artifact}
use flux_externalsource_cont.Storage.Memory
use flux_externalsource_cont.Storage.Memory.{MemoryBackend, memory_storage, has_prefix, keys_with}
use flux_externalsource_cont.Storage.Memory.Laws.{retrieve-store-delete}
use flux_externalsource_cont.Artifact.Manager.{Packing, cleanup, prefix_of, key_of}
use flux_externalsource_cont.Artifact.Manager.Laws.{cleanup-memory}
use flux_externalsource_cont.Config.Validate.{validate, default_config}
use flux_externalsource_cont.Config.Validate.Laws.{IsValid, validate_iff}
use flux_externalsource_cont.Config.Load.{Environment}
use flux_externalsource_cont.Hooks.Whitelist.{
  WhitelistLibrary, FileWhitelistManager, CommandConfig, reload,
}
use flux_externalsource_cont.Tests.{toy_floats, Town, hi}

abbrev pub stored : MemoryBackend
stored = record {
  objects =
      ("artifacts/n/s/r1.tar.gz", hi)
      ∷ ("artifacts/n/s/r2.tar.gz", hi)
      ∷ ("artifacts/n/t/r1.tar.gz", hi)
      ∷ [];
  base_url = "";
}

retrieve-store-delete_example :
    ((Memory.retrieve "b" (Memory.store "a" hi stored).1).0 ≡ (Memory.retrieve "b" stored).0)
    × ((Memory.retrieve "b" (Memory.delete "a" stored).1).0 ≡ (Memory.retrieve "b" stored).0)
retrieve-store-delete_example = retrieve-store-delete stored "a" "b" hi

abbrev pub packing : Packing MemoryBackend
packing = record {
  sha256_hex = λ bytes. "d1";
  clean = λ path. path;
  trim_slash = λ path. path;
  contains = λ s part. false;
  tar_gz = λ name bytes m. (ok (1 ∷ bytes), m);
  created = λ m. "now";
  print_length = λ n. "3";
  cleanup_message = λ errors. "errors";
}

cleanup-memory_example :
    (let kept = cleanup packing memory_storage "n/s" "r2" stored in
      (kept.0 ≡ ok tt)
      × (lookup "artifacts/n/t/r1.tar.gz" kept.1.objects ≡ (
          if has_prefix "artifacts/n/t/r1.tar.gz" (prefix_of packing memory_storage "n/s")
            && not ("artifacts/n/t/r1.tar.gz" == key_of packing memory_storage "n/s" "r2")
          then none
          else lookup "artifacts/n/t/r1.tar.gz" stored.objects)))
cleanup-memory_example = cleanup-memory packing "n/s" "r2" "artifacts/n/t/r1.tar.gz" stored

abbrev pub packed : Artifact
packed = record {
  bytes = 1 ∷ hi;
  path = "data";
  revision = "d1";
  metadata = ("created", "now") ∷ ("size", "3") ∷ ("contentHash", "d1") ∷ [];
}

validate_iff_example :
    (validate toy_floats (default_config toy_floats) ≡ ok tt)
    ↔ IsValid toy_floats (default_config toy_floats)
validate_iff_example = validate_iff toy_floats (default_config toy_floats)

abbrev environment : Environment
environment = record {
  getenv = λ key. if key == "STORAGE_BACKEND" then "pvc" else "";
  parse_bool = λ s. none;
  atoi = λ s. none;
  parse_duration = λ s. none;
}

abbrev pub library : WhitelistLibrary
library = record {
  Regexp = String;
  compile = λ s. ok s;
  match_string = λ re s. re == s;
  base = λ s. "jq";
  unmarshal = λ s. err "bad yaml";
}

abbrev jq_only : Dict CommandConfig
jq_only = ("jq", record { allowed = true; argument_patterns = "." ∷ [] }) ∷ []

abbrev whitelist : FileWhitelistManager library
whitelist = record {
  path = "/etc/whitelist.yaml";
  config = some (record { commands = some jq_only });
  arg_patterns = ("jq", "." ∷ []) ∷ [];
  allow_all_by_default = false;
}

bad_reload :
    reload library (ok "{") whitelist ≡ (err "failed to parse whitelist file: bad yaml", whitelist)
unfolding reload
bad_reload = refl

abbrev factory : Factory Town
factory = record { generators = [] }
