-- ===== src/Hooks/Sidecar.antt =====
-- cmd/externalsource-hook-executor/main.go: the server that runs the commands.
use Prim.Native.String.{◌++◌}
use flux_externalsource_cont.Prelude.{
  ℕ, String, not, Option, none, some, List, [], ◌∷◌, Result, ok, err, ◌==◌, if◌then◌else◌,
}
use mathlib.Core.List.{◌++◌ as ◌++ᴸ◌}
use flux_externalsource_cont.Prelude.Int.{ℤ, pos}
use flux_externalsource_cont.Prelude.Dict.{Dict}
use flux_externalsource_cont.Generator.{Bytes}
use flux_externalsource_cont.Hooks.{WhitelistManager}
use flux_externalsource_cont.Hooks.Protocol.{
  ExecuteRequest, ExecuteResponse, HookRequest, HookReply, Codec, Run, RunError, no_error,
  exit_error, other_error, Processes,
}

pub record Server : Type 0 where
  pub whitelist_manager : WhitelistManager

unfoldable pub new_server : WhitelistManager → Server
new_server whitelist_manager = record { whitelist_manager = whitelist_manager }

module _ (codec : Codec) {W : Type 0} (processes : Processes W) where
  -- `http.Error`, which ends the message with a line feed
  abbrev pub http_error : String → ℕ → HookReply codec.Body
  http_error message status_code = record {
    status_code = status_code;
    body = ok (codec.body_of (message ++ "\n"));
  }

  unfoldable pub assignments : Dict String → List String
  assignments [] = []
  assignments ((k, v) ∷ env) = (k ++ ("=" ++ v)) ∷ assignments env

  abbrev pub environment_of : Dict String → Option (List String)
  environment_of [] = none
  environment_of (variable ∷ env) = some (processes.environ ++ᴸ assignments (variable ∷ env))

  -- the exit code, and what is added to stderr
  abbrev pub exit_code_of : RunError → ℤ
  exit_code_of no_error = pos 0
  exit_code_of (exit_error code) = code
  exit_code_of (other_error e) = pos 1

  abbrev pub stderr_of : Bytes → RunError → Bytes
  stderr_of bytes no_error = bytes
  stderr_of bytes (exit_error code) = bytes
  stderr_of bytes (other_error e) = bytes ++ᴸ codec.bytes_of ("\nExecution error: " ++ e)

  abbrev pub response_of : Run → ExecuteResponse
  response_of run = record {
    stdout = codec.encode_base64 run.stdout;
    stderr = codec.encode_base64 (stderr_of run.stderr run.error);
    exit_code = exit_code_of run.error;
  }

  unfoldable pub execute_command :
      (command : String) (args : List String) (stdin : Bytes) (env : Dict String) (timeout : ℤ)
      → W
      → ExecuteResponse × W
  unfolding assignments
  execute_command command args stdin env timeout w =
      let (run, w') =
        processes.run
          (record {
            name = command;
            args = args;
            stdin = stdin;
            env = environment_of env;
            timeout = timeout;
          })
          w in
      (response_of run, w')

  -- An error of the encoder is only logged, behind an empty body.
  abbrev pub encoded : Result String codec.Body → HookReply codec.Body
  encoded (ok body) = record { status_code = 200; body = ok body }
  encoded (err e) = record { status_code = 200; body = ok (codec.body_of "") }

  abbrev pub answered : ExecuteResponse × W → HookReply codec.Body × W
  answered (resp, w) = (encoded (codec.marshal_response resp), w)

  abbrev pub with_stdin : ExecuteRequest → ℤ → Bytes × Option String → W → HookReply codec.Body × W
  with_stdin req timeout (stdin, none) w =
      answered (execute_command req.command req.args stdin req.env timeout w)
  with_stdin req timeout (stdin, some e) w = (http_error ("Failed to decode stdin: " ++ e) 400, w)

  abbrev pub stdin_of : String → Bytes × Option String
  stdin_of stdin = if stdin == "" then ([], none) else codec.decode_base64 stdin

  abbrev pub with_timeout : ExecuteRequest → Result String ℤ → W → HookReply codec.Body × W
  with_timeout req (ok timeout) w = with_stdin req timeout (stdin_of req.stdin) w
  with_timeout req (err e) w = (http_error ("Invalid timeout: " ++ e) 400, w)

  abbrev pub timeout_for : String → Result String ℤ
  timeout_for timeout =
      if timeout == "" then ok (pos 30_000_000_000) else codec.parse_duration timeout

  module _ (s : Server) where
    abbrev pub with_request : Result String ExecuteRequest → W → HookReply codec.Body × W
    with_request (err e) w = (http_error ("Failed to parse request: " ++ e) 400, w)
    with_request (ok req) w =
        if not (s.whitelist_manager.is_allowed req.command req.args)
        then (http_error (("Command " ++ req.command) ++ " is not whitelisted") 403, w)
        else with_timeout req (timeout_for req.timeout) w

    unfoldable pub handle_execute : HookRequest codec.Body → W → HookReply codec.Body × W
    unfolding execute_command
    handle_execute r w =
        if not (r.method == "POST")
        then (http_error "Method not allowed" 405, w)
        else with_request (codec.unmarshal_request r.body) w

  -- `handleHealth`, whose encoder is a parameter
  unfoldable pub handle_health :
      (encode : Dict String → Result String codec.Body) → HookReply codec.Body
  handle_health encode =
      let body = encode (("status", "healthy") ∷ []) in
      elim body [
        | ok bytes ↦ record { status_code = 200; body = ok bytes }
        | err e ↦ http_error "Failed to encode response" 500
      ]
