-- ===== src/Hooks/Remote.antt =====
-- A hook from end to end: the controller's client and the sidecar's server, connected.
use Prim.Native.String.{◌++◌}
use flux_externalsource_cont.Prelude.{
  String, ◌≡◌, refl, sym, ap, ◌∙◌, true, false, ◌&&◌, Bool-cases, inl, inr, none, [], Result, ok,
  err, Result-cases, ◌==◌, if◌then◌else◌, eq_iff,
}
use mathlib.Core.List.{◌++◌ as ◌++ᴸ◌}
use flux_externalsource_cont.Prelude.Int.{ℤ, pos}
use flux_externalsource_cont.Prelude.Actions.{lift, wrap, ◌>>=◌}
use flux_externalsource_cont.Api.{HookSpec}
use flux_externalsource_cont.Generator.{Bytes}
use flux_externalsource_cont.Hooks.Protocol.{
  ExecuteRequest, ExecuteResponse, HookRequest, Codec, Run, RunError, no_error, exit_error,
  other_error, Command, Network, Processes,
}
use flux_externalsource_cont.Hooks.Executor.{
  SidecarExecutor, env_of, is_zero, timeout_of, request_for, output_of, reply_output, send_request,
  execute,
}
use flux_externalsource_cont.Hooks.Sidecar.{
  Server, environment_of, response_of, execute_command, stdin_of, timeout_for, handle_execute,
}

-- what is encoded can be decoded
pub record IsFaithful (codec : Codec) : Type 0 where
  pub decode-encode :
      (bytes : Bytes) → codec.decode_base64 (codec.encode_base64 bytes) ≡ (bytes, none)
  pub encode-nil : codec.encode_base64 [] ≡ ""
  pub request_passes :
      (req : ExecuteRequest)
      → (body : codec.Body) × (codec.marshal_request req ≡ ok body)
        × (codec.unmarshal_request body ≡ ok req)
  pub response_passes :
      (resp : ExecuteResponse)
      → (body : codec.Body) × (codec.marshal_response resp ≡ ok body)
        × (codec.unmarshal_response body ≡ ok resp)

module _ (codec : Codec) {W : Type 0} (processes : Processes W) (server : Server) where
  -- a request to the endpoint reaches the server, and the answer comes back in time
  pub record IsConnected (network : Network codec.Body W) (endpoint : String) : Type 0 where
    pub url_is_valid : network.check_url (endpoint ++ "/execute") ≡ ok tt
    pub arrives :
        (client_timeout timeout : ℤ) (req : HookRequest codec.Body) (w : W)
        → req.url ≡ endpoint ++ "/execute"
        → network.send client_timeout timeout req w ≡ (
          ok (handle_execute codec processes server req w).0,
          (handle_execute codec processes server req w).1,
        )

  -- the command that a hook stands for
  unfoldable pub command_for : Bytes → HookSpec → (timeout : ℤ) → Command
  unfolding env_of
  command_for input hook timeout = record {
    name = hook.command;
    args = hook.args;
    stdin = input;
    env = environment_of codec processes (env_of hook.env []);
    timeout = timeout;
  }

  -- its result: the output of a command that succeeds
  abbrev pub failed : ℤ → Bytes → Result String Bytes
  failed code stderr =
      err (("command exited with code " ++ codec.print_int code) ++ (": " ++ codec.text_of stderr))

  unfoldable pub outcome : Run → Result String Bytes
  outcome run = elim (run.error) [
    | no_error ↦ ok run.stdout
    | exit_error code ↦ if is_zero code then ok run.stdout else failed code run.stderr
    | other_error e ↦ failed (pos 1) (run.stderr ++ᴸ codec.bytes_of ("\nExecution error: " ++ e))
  ]

module _ (codec : Codec) (faithful : IsFaithful codec) where
  stdin_of-encode :
      {W : Type 0} (processes : Processes W) (input : Bytes)
      → stdin_of codec processes (codec.encode_base64 input) ≡ (input, none)
  stdin_of-encode processes input = elim (Bool-cases (codec.encode_base64 input == "")) [
    | inl empty ↦ rw empty (
        sym (faithful.decode-encode [])
        ∙ ap codec.decode_base64
            (faithful.encode-nil ∙ sym ((eq_iff (codec.encode_base64 input) "").0 empty))
        ∙ faithful.decode-encode input)
    | inr full ↦ rw full (faithful.decode-encode input)
  ]

  timeout_of-ok :
      {W : Type 0} (processes : Processes W) (default_timeout : ℤ) (timeout : String) (t : ℤ)
      → timeout_for codec processes timeout ≡ ok t
      → (u : ℤ) × (timeout_of codec default_timeout timeout (codec.parse_duration timeout) ≡ ok u)
  timeout_of-ok processes default_timeout timeout t e = elim (Bool-cases (timeout == "")) [
    | inl empty ↦ (
      default_timeout,
      elim (Result-cases (codec.parse_duration timeout)) [
        | inl (x, parsed) ↦ rw (parsed, empty) refl
        | inr (m, failure) ↦ rw (failure, empty) refl
      ],
    )
    | inr given ↦ (t, rw (rw given at e, given) refl)
  ]

  decoded-encode :
      (bytes : Bytes)
      → Path
          (Result String Bytes)
          (ok (codec.decode_base64 (codec.encode_base64 bytes)).0)
          (ok bytes)
  decoded-encode bytes = ap (λ x. ok x.0) (faithful.decode-encode bytes)

  output_of-response_of :
      {W : Type 0} (processes : Processes W) (server : Server) (stdout stderr : Bytes)
      (error : RunError)
      → (let run : Run = record { stdout = stdout; stderr = stderr; error = error } in
          output_of codec (response_of codec processes run) ≡ outcome codec processes server run)
  unfolding outcome
  output_of-response_of processes server stdout stderr no_error =
      rw (faithful.decode-encode stdout) (decoded-encode stdout)
  output_of-response_of processes server stdout stderr (exit_error code) =
      elim (Bool-cases (is_zero code)) [
        | inl zero_code ↦ rw (zero_code, faithful.decode-encode stdout) (decoded-encode stdout)
        | inr other_code ↦ rw (other_code, faithful.decode-encode stderr) refl
      ]
  output_of-response_of processes server stdout stderr (other_error e) =
      rw (faithful.decode-encode (stderr ++ᴸ codec.bytes_of ("\nExecution error: " ++ e))) refl

module _ (codec : Codec) (faithful : IsFaithful codec) {W : Type 0} (processes : Processes W)
    (server : Server) (network : Network codec.Body W) (s : SidecarExecutor)
    (connected : IsConnected codec processes server network s.endpoint) where
  -- what the server answers to the client's request, as the client reads it
  abbrev IsHandled : (input : Bytes) (hook : HookSpec) (t : ℤ) (body : codec.Body) (w : W) → Type 0
  IsHandled input hook t body w =
      let req : HookRequest codec.Body = record {
        method = "POST";
        url = s.endpoint ++ "/execute";
        content_type = "application/json";
        body = body;
      } in
      let answer = handle_execute codec processes server req w in
      let ran = processes.run (command_for codec processes server input hook t) w in
      (reply_output codec answer.0.status_code answer.0.body ≡ outcome codec processes server ran.0)
      × (answer.1 ≡ ran.1)

  handle_execute-runs :
      (input : Bytes) (hook : HookSpec) (t : ℤ) (body : codec.Body) (w : W)
      → server.whitelist_manager.is_allowed hook.command hook.args ≡ true
      → timeout_for codec processes hook.timeout ≡ ok t
      → codec.unmarshal_request body ≡ ok (request_for codec input hook)
      → IsHandled input hook t body w
  unfolding handle_execute request_for execute_command command_for
  handle_execute-runs input hook t body w allowed timeout read =
      let ran = processes.run (command_for codec processes server input hook t) w in
      let (reply, marshalled, back) =
        faithful.response_passes (response_of codec processes ran.0) in
      rw (read, allowed, timeout, stdin_of-encode codec faithful processes input, marshalled, back)
        (
          output_of-response_of codec faithful processes server ran.0.stdout ran.0.stderr
              ran.0.error,
          refl,
        )

  -- the request is sent, and its answer is what the server gives
  send_request-handle_execute :
      (input : Bytes) (hook : HookSpec) (timeout : ℤ) (body : codec.Body) (w : W)
      → codec.marshal_request (request_for codec input hook) ≡ ok body
      → (let answer =
            handle_execute codec processes server
              (record {
                method = "POST";
                url = s.endpoint ++ "/execute";
                content_type = "application/json";
                body = body;
              })
              w in
          send_request codec network s input hook timeout w
          ≡ (reply_output codec answer.0.status_code answer.0.body, answer.1))
  unfolding send_request lift wrap ◌>>=◌
  send_request-handle_execute input hook timeout body w marshalled =
      rw
        (
          marshalled,
          connected.url_is_valid,
          connected.arrives s.http_timeout timeout
              (record {
                method = "POST";
                url = s.endpoint ++ "/execute";
                content_type = "application/json";
                body = body;
              })
              w refl,
        )
        refl

  -- Where what is encoded can be decoded, and the sidecar's answer comes back in time, running a
  -- hook that both whitelists allow, with a timeout that can be read, does what running its command
  -- does: the input is its standard input, the hook's variables are added to the environment, and
  -- the timeout is the hook's own or 30 seconds. The result is the standard output, or an error
  -- if the command fails.
  pub execute-runs :
      (input : Bytes) (hook : HookSpec) (t : ℤ) (w : W)
      → s.whitelist_manager.is_allowed hook.command hook.args ≡ true
      → server.whitelist_manager.is_allowed hook.command hook.args ≡ true
      → timeout_for codec processes hook.timeout ≡ ok t
      → (let ran = processes.run (command_for codec processes server input hook t) w in
          execute codec network s input hook w ≡ (outcome codec processes server ran.0, ran.1))
  unfolding execute
  execute-runs input hook t w client_allows server_allows timeout =
      let (u, read) =
        timeout_of-ok codec faithful processes s.default_timeout hook.timeout t timeout in
      let (body, marshalled, back) = faithful.request_passes (request_for codec input hook) in
      let (answer, world) = handle_execute-runs input hook t body w server_allows timeout back in
      rw (client_allows, read)
        (send_request-handle_execute input hook u body w marshalled ∙ λ i. (answer i, world i))

  abbrev refusal : HookSpec → String
  refusal hook =
      ("sidecar returned status " ++ codec.print_int (pos 403))
      ++ (": "
          ++ codec.text_of_body
              (codec.body_of ((("Command " ++ hook.command) ++ " is not whitelisted") ++ "\n")))

  server_refuses :
      (input : Bytes) (hook : HookSpec) (timeout : ℤ) (w : W)
      → server.whitelist_manager.is_allowed hook.command hook.args ≡ false
      → send_request codec network s input hook timeout w ≡ (err (refusal hook), w)
  unfolding handle_execute request_for
  server_refuses input hook timeout w refused =
      let (body, marshalled, back) = faithful.request_passes (request_for codec input hook) in
      send_request-handle_execute input hook timeout body w marshalled ∙ rw (back, refused) refl

  -- Where what is encoded can be decoded, and the sidecar's answer comes back in time, a hook that
  -- one of the two whitelists refuses fails, and nothing changes: no command runs.
  pub execute-refuses :
      (input : Bytes) (hook : HookSpec) (w : W)
      → (s.whitelist_manager.is_allowed hook.command hook.args
          && server.whitelist_manager.is_allowed hook.command hook.args)
        ≡ false
      → (e : String) × (execute codec network s input hook w ≡ (err e, w))
  unfolding execute
  execute-refuses input hook w refused =
      elim (Bool-cases (s.whitelist_manager.is_allowed hook.command hook.args)) [
        | inr denied ↦ (
          ("command " ++ hook.command)
              ++ (" with args " ++ (codec.print_args hook.args ++ " is not whitelisted")),
          rw denied refl,
        )
        | inl permitted ↦
            elim (Result-cases (
              timeout_of codec s.default_timeout hook.timeout
                (codec.parse_duration hook.timeout))) [
                  | inl (t, read) ↦ (
                    refusal hook,
                    rw (permitted, read) (server_refuses input hook t w (rw permitted at refused)),
                  )
                  | inr (m, unread) ↦ (m, rw (permitted, unread) refl)
                ]
      ]
