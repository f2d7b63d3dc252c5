-- ===== src/Tests/Start.antt =====
-- The theorem on the start of the process, with the memory backend.
use flux_externalsource_cont.Prelude.{
  ℕ, suc, ◌+◌, String, some, ◌≡◌, refl, true, false, none, some, [], Result, ok, err, ◌==◌,
}
use flux_externalsource_cont.Prelude.Int.{pos}
use flux_externalsource_cont.Config.ConfigMap.{Unmarshal}
use flux_externalsource_cont.Config.Load.{Environment}
use flux_externalsource_cont.Metrics.Prometheus.{Vectors}
use flux_externalsource_cont.Hooks.Whitelist.{WhitelistLibrary}
use flux_externalsource_cont.Storage.{StorageBackend}
use flux_externalsource_cont.Storage.Pvc.{FileSystem}
use flux_externalsource_cont.Artifact.Manager.{Packing}
use flux_externalsource_cont.Artifact.Server.{Server, new_server}
use flux_externalsource_cont.Controller.Setup.{Backend, Surroundings}
use flux_externalsource_cont.Entry.{Flags, Launched, shared_backend, main}
use flux_externalsource_cont.Entry.Laws.{Shares, main-Shares}
use flux_externalsource_cont.Tests.{toy_floats}
use flux_externalsource_cont.Tests.Sidecar.{codec, network}
use flux_externalsource_cont.Tests.Network.{http}

abbrev readable : WhitelistLibrary
readable = record {
  Regexp = String;
  compile = λ s. ok s;
  match_string = λ re s. re == s;
  base = λ s. s;
  unmarshal = λ s. ok (record { commands = some [] });
}

-- the world counts what happens
abbrev counting : ℕ → StorageBackend ℕ
counting address = record {
  store = λ key bytes n. (ok key, suc (address + n));
  list = λ prefix n. (ok [], n);
  delete = λ key n. (ok tt, suc n);
  get_url = λ key n. key;
  retrieve = λ key n. (err "artifact not found", n);
}

abbrev packing : Packing ℕ
packing = record {
  sha256_hex = λ bytes. "d1";
  clean = λ path. path;
  trim_slash = λ path. path;
  contains = λ s part. false;
  tar_gz = λ name bytes n. (ok bytes, n);
  created = λ n. "now";
  print_length = λ n. "n";
  cleanup_message = λ errors. "errors";
}

abbrev files : FileSystem ℕ
files = record {
  join = λ base key. key;
  dir = λ path. "";
  rel = λ base path. ok path;
  to_slash = λ path. path;
  contains = λ s part. false;
  bytes_of = λ s. [];
  mkdir_all = λ path n. (ok tt, suc n);
  write_file = λ path bytes n. (ok tt, suc n);
  remove = λ path n. (ok tt, suc n);
  is_there = λ path n. false;
  walk_dir = λ path n. [];
  read_file = λ path n. err (record { is_not_exist = true; message = "" });
}

abbrev around : Surroundings ℕ
around = record {
  whitelist = readable;
  read_file = λ path n. ok "commands: {}";
  codec = codec;
  network = network;
  http = http;
  packing = packing;
  files = files;
  allocate = λ n. (n, suc n);
  storage_of = λ backend. counting backend.address;
  print_int = λ n. "8080";
  complete = λ n. (ok tt, suc n);
}

abbrev environment : Environment
environment = record {
  getenv = λ key. "";
  parse_bool = λ s. none;
  atoi = λ s. none;
  parse_duration = λ s. none;
}

abbrev unmarshal : Unmarshal toy_floats.Float
unmarshal json c = (err "bad json", c)

abbrev flags : Flags
flags = record { artifact_server_port = pos 9090; artifact_server_enabled = true }

abbrev silent : Vectors ℕ
silent = record {
  inc_counter = λ vec labels n. n;
  observe = λ vec labels n. n;
  inc_gauge = λ vec labels n. n;
  dec_gauge = λ vec labels n. n;
}

abbrev started : Result String (Launched toy_floats.Float ℕ) × ℕ
started =
    main around toy_floats environment unmarshal (λ namespace name. err "no ConfigMap") flags silent
      (λ n. (ok tt, n)) 0

launched :
    (l : Launched toy_floats.Float ℕ) × (s : Server ℕ) × (w : ℕ) × (started ≡ (ok l, w))
    × (l.artifact_server ≡ some s)
unfolding main
launched = (_, _, _, refl, refl)

main-Shares_example :
    (backend : Backend) × ((shared_backend around launched.0.config
        (environment.getenv "POD_NAME")
        0).0
      ≡ ok (some backend))
    × Shares around launched.0.components backend
    × (launched.1 ≡ new_server (around.storage_of backend) flags.artifact_server_port)
    × (launched.0.config.artifact_server.port ≡ flags.artifact_server_port)
main-Shares_example =
    main-Shares around toy_floats environment unmarshal (λ namespace name. err "no ConfigMap") flags
      silent (λ n. (ok tt, n)) launched.0 launched.1 0 launched.2 launched.3 launched.4
