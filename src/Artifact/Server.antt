-- ===== src/Artifact/Server.antt =====
-- internal/artifact/server.go: the server that hands out stored artifacts. Listening and the
-- waiting for the end of the process are the Go library's.
pub mod Laws
use Prim.Native.Char.{code}
use Prim.Native.String.{◌++◌}
use flux_externalsource_cont.Prelude.{
  ℕ, String, Bool, true, false, not, Option, none, some, List, [], ◌∷◌, Result, ok, err, ◌==◌, eqb,
  if◌then◌else◌,
}
use flux_externalsource_cont.Prelude.Int.{ℤ, pos}
use flux_externalsource_cont.Prelude.Dict.{Dict}
use flux_externalsource_cont.Prelude.Actions.{Action}
use flux_externalsource_cont.Generator.{Bytes}
use flux_externalsource_cont.Storage.{StorageBackend}

-- the settings of `http.Server`, whose handler is `serve_artifact` for every path
pub record HttpServer : Type 0 where
  pub addr : String
  pub read_timeout : ℤ
  pub write_timeout : ℤ
  pub idle_timeout : ℤ
  pub read_header_timeout : ℤ

pub record Server (W : Type 0) : Type 0 where
  pub storage : StorageBackend W
  pub port : ℤ
  pub http_server : Option HttpServer

-- what a handler writes: headers and a body, or what `http.Error` makes of a message and a status
pub data Reply : Type 0 where
  served : Dict String → Bytes → Reply
  http_error : (message : String) (status_code : ℕ) → Reply

-- strings.TrimPrefix(path, "/")
abbrev pub trim_slash : String → String
trim_slash String.[] = ""
trim_slash (String.◌∷◌ c rest) = if eqb (code c) 47 then rest else String.◌∷◌ c rest

module _ {W : Type 0} where
  unfoldable pub new_server : StorageBackend W → (port : ℤ) → Server W
  new_server backend port = record { storage = backend; port = port; http_server = none }

  -- what `Start` does before it waits
  unfoldable pub start : (print_int : ℤ → String) → Server W → Server W
  start print_int s = record s {
    http_server = some (record {
      addr = ":" ++ print_int s.port;
      read_timeout = pos 30_000_000_000;
      write_timeout = pos 30_000_000_000;
      idle_timeout = pos 120_000_000_000;
      read_header_timeout = pos 10_000_000_000;
    });
  }

  -- `stop` is `http.Server.Shutdown`, with the timeout of its context
  unfoldable pub shutdown :
      (stop : HttpServer → (timeout : ℤ) → Action W (Unit {0})) → Server W → Action W (Unit {0})
  shutdown stop s w = elim (s.http_server) [
    | none ↦ (ok tt, w)
    | some http_server ↦ stop http_server (pos 10_000_000_000) w
  ]

  -- `contains` is strings.Contains
  module _ (contains : (s part : String) → Bool) (s : Server W) where
    abbrev pub headers_for : (path : String) → Dict String
    headers_for path =
        ("Content-Type", "application/gzip")
        ∷ ("Content-Disposition", "attachment; filename=\"" ++ (path ++ "\""))
        ∷ ("Cache-Control", "public, max-age=31536000, immutable")
        ∷ []

    abbrev pub reply_for : (path : String) → Result String Bytes → Reply
    reply_for path (ok bytes) = served (headers_for path) bytes
    reply_for path (err e) =
        if contains e "not found"
        then http_error "Artifact not found" 404
        else http_error "Internal server error" 500

    unfoldable pub serve_artifact : (method url_path : String) → W → Reply × W
    serve_artifact method url_path w =
        let path = trim_slash url_path in
        let (found, w') = s.storage.retrieve path w in
        if not (method == "GET")
        then (http_error "Method not allowed" 405, w)
        else if path == ""
        then (http_error "Artifact key not specified" 400, w)
        else (reply_for path found, w')
