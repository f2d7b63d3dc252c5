-- ===== src/Hooks/Executor.antt =====
-- internal/hooks/executor.go: the hooks as the controller runs them, by a request to the sidecar.
use Prim.Native.String.{◌++◌}
use flux_externalsource_cont.Prelude.{
  ℕ, zero, suc, String, Bool, true, false, not, Option, none, some, List, [], ◌∷◌, Result, ok, err,
  ◌==◌, eqb, if◌then◌else◌,
}
use flux_externalsource_cont.Prelude.Int.{ℤ, pos, negsuc}
use flux_externalsource_cont.Prelude.Dict.{Dict, insert}
use flux_externalsource_cont.Prelude.Actions.{Action, lift, wrap, ◌>>=◌}
use flux_externalsource_cont.Api.{HookSpec, EnvVar}
use flux_externalsource_cont.Generator.{Bytes}
use flux_externalsource_cont.Hooks.{HookExecutor, WhitelistManager}
use flux_externalsource_cont.Hooks.Protocol.{ExecuteRequest, ExecuteResponse, Codec, Network}

pub record SidecarExecutor : Type 0 where
  pub endpoint : String
  pub http_timeout : ℤ
  pub whitelist_manager : WhitelistManager
  pub default_timeout : ℤ

unfoldable pub new_sidecar_executor : String → WhitelistManager → ℤ → SidecarExecutor
new_sidecar_executor endpoint whitelist_manager default_timeout = record {
  endpoint = endpoint;
  http_timeout = pos 300_000_000_000;
  whitelist_manager = whitelist_manager;
  default_timeout = default_timeout;
}

-- `env[envVar.Name] = envVar.Value`, for each variable
unfoldable pub env_of : List EnvVar → Dict String → Dict String
unfolding insert
env_of [] env = env
env_of (v ∷ rest) env = env_of rest (insert v.name v.value env)

abbrev pub is_zero : ℤ → Bool
is_zero (pos zero) = true
is_zero (pos (suc n)) = false
is_zero (negsuc n) = false

module _ (codec : Codec) where
  abbrev pub timeout_of : ℤ → (timeout : String) → Result String ℤ → Result String ℤ
  timeout_of default_timeout timeout (ok parsed) =
      if timeout == "" then ok default_timeout else ok parsed
  timeout_of default_timeout timeout (err e) =
      if timeout == ""
      then ok default_timeout
      else err (("invalid timeout " ++ timeout) ++ (": " ++ e))

  unfoldable pub request_for : Bytes → HookSpec → ExecuteRequest
  unfolding env_of
  request_for input hook = record {
    command = hook.command;
    args = hook.args;
    timeout = hook.timeout;
    env = env_of hook.env [];
    stdin = codec.encode_base64 input;
  }

  abbrev pub decoded : Bytes × Option String → Result String Bytes
  decoded (bytes, none) = ok bytes
  decoded (bytes, some e) = err e

  -- the exit code, then the output
  abbrev pub output_of : ExecuteResponse → Result String Bytes
  output_of resp =
      if not (is_zero resp.exit_code)
      then err (
          ("command exited with code " ++ codec.print_int resp.exit_code)
          ++ (": " ++ codec.text_of (codec.decode_base64 resp.stderr).0))
      else (elim (decoded (codec.decode_base64 resp.stdout)) [
        | ok bytes ↦ ok bytes
        | err e ↦ err ("failed to decode stdout: " ++ e)
      ])

  abbrev pub parsed_output : Result String ExecuteResponse → Result String Bytes
  parsed_output (ok resp) = output_of resp
  parsed_output (err e) = err ("failed to parse response: " ++ e)

  -- the answer, whose body is read before its status is looked at
  abbrev pub reply_output : ℕ → Result String codec.Body → Result String Bytes
  reply_output status_code (err e) = err ("failed to read response: " ++ e)
  reply_output status_code (ok body) =
      if not (eqb status_code 200)
      then err (
          ("sidecar returned status " ++ codec.print_int (pos status_code))
          ++ (": " ++ codec.text_of_body body))
      else parsed_output (codec.unmarshal_response body)

  module _ {W : Type 0} (network : Network codec.Body W) (s : SidecarExecutor) where
    unfoldable pub send_request : Bytes → HookSpec → (timeout : ℤ) → Action W Bytes
    unfolding request_for lift wrap ◌>>=◌
    send_request input hook timeout = do
      body ←
          wrap (λ e. "failed to marshal request: " ++ e)
            (lift (codec.marshal_request (request_for input hook)))
      checked ←
          wrap (λ e. "failed to create HTTP request: " ++ e)
            (lift (network.check_url (s.endpoint ++ "/execute")))
      reply ←
          wrap (λ e. "failed to send request to sidecar: " ++ e)
            (network.send s.http_timeout timeout (record {
              method = "POST";
              url = s.endpoint ++ "/execute";
              content_type = "application/json";
              body = body;
            }))
      lift (reply_output reply.status_code reply.body)

    abbrev pub with_timeout : Bytes → HookSpec → Result String ℤ → Action W Bytes
    with_timeout input hook (ok timeout) = send_request input hook timeout
    with_timeout input hook (err e) = λ w. (err e, w)

    unfoldable pub execute : Bytes → HookSpec → Action W Bytes
    unfolding send_request
    execute input hook w =
        if not (s.whitelist_manager.is_allowed hook.command hook.args)
        then (
          err (
              ("command " ++ hook.command)
              ++ (" with args " ++ (codec.print_args hook.args ++ " is not whitelisted"))),
          w,
        )
        else with_timeout input hook
            (timeout_of s.default_timeout hook.timeout (codec.parse_duration hook.timeout)) w

    abbrev pub sidecar_executor : HookExecutor W
    sidecar_executor = record { execute = execute }
