-- ===== src/Tests/Sidecar.antt =====
-- The theorems on the hooks' client and server, with a command that prints its input.
use Prim.Native.Char.{code}
use native.Mathlib.Nat.{zero-add}
use flux_externalsource_cont.Prelude.{
  ℕ, zero, suc, ◌+◌, String, ◌≡◌, refl, ap, ◌∙◌, none, [], ◌∷◌, Result, ok, err, ◌==◌, eqb, arith,
  if◌then◌else◌,
}
use flux_externalsource_cont.Prelude.Int.{pos}
use flux_externalsource_cont.Generator.{Bytes}
use flux_externalsource_cont.Hooks.{WhitelistManager}
use flux_externalsource_cont.Hooks.Protocol.{
  ExecuteRequest, ExecuteResponse, Codec, Network, Processes, no_error,
}
use flux_externalsource_cont.Hooks.Executor.{SidecarExecutor, new_sidecar_executor, execute}
use flux_externalsource_cont.Hooks.Sidecar.{Server, new_server, handle_execute}
use flux_externalsource_cont.Hooks.Remote.{
  IsFaithful, IsConnected, command_for, outcome, execute-runs, execute-refuses,
}
use flux_externalsource_cont.Tests.{hi, hook}

-- numbers in unary, each with a comma behind it
abbrev pub strokes : ℕ → String → String
strokes zero rest = String.◌∷◌ "," rest
strokes (suc n) rest = String.◌∷◌ "|" (strokes n rest)

abbrev pub encode : Bytes → String
encode [] = ""
encode (n ∷ bytes) = strokes n (encode bytes)

abbrev pub decode : ℕ → String → Bytes
decode read String.[] = []
decode read (String.◌∷◌ c rest) =
    let number = decode 0 rest in
    let stroke = decode (suc read) rest in if eqb (code c) 44 then read ∷ number else stroke

decode-strokes :
    (n read : ℕ) (rest : String) → decode read (strokes n rest) ≡ (read + n) ∷ decode 0 rest
decode-strokes zero read rest = ap (λ x. x ∷ decode 0 rest) (omega arith)
decode-strokes (suc n) read rest =
    decode-strokes n (suc read) rest ∙ ap (λ x. x ∷ decode 0 rest) (omega arith)

decode-encode : (bytes : Bytes) → decode 0 (encode bytes) ≡ bytes
decode-encode [] = refl
decode-encode (n ∷ bytes) =
    decode-strokes n 0 (encode bytes)
    ∙ ap (λ x. x ∷ decode 0 (encode bytes)) (zero-add n)
    ∙ ap (λ x. n ∷ x) (decode-encode bytes)

pub data Body : Type 0 where
  request : ExecuteRequest → Body
  response : ExecuteResponse → Body
  words : String → Body

abbrev pub read_request : Body → Result String ExecuteRequest
read_request (request r) = ok r
read_request (response r) = err "no request"
read_request (words s) = err "no request"

abbrev pub read_response : Body → Result String ExecuteResponse
read_response (request r) = err "no response"
read_response (response r) = ok r
read_response (words s) = err "no response"

abbrev pub codec : Codec
codec = record {
  Body = Body;
  encode_base64 = encode;
  decode_base64 = λ s. (decode 0 s, none);
  marshal_request = λ r. ok (request r);
  unmarshal_request = read_request;
  marshal_response = λ r. ok (response r);
  unmarshal_response = read_response;
  parse_duration = λ s. err "no duration";
  text_of = λ bytes. "text";
  bytes_of = λ s. 33 ∷ [];
  text_of_body = λ body. "text";
  body_of = words;
  print_args = λ args. "args";
  print_int = λ n. "n";
}

faithful : IsFaithful codec
faithful = record {
  decode-encode = λ bytes. ap (λ x. (x, none)) (decode-encode bytes);
  encode-nil = refl;
  request_passes = λ req. (request req, refl, refl);
  response_passes = λ resp. (response resp, refl, refl);
}

-- the world counts the commands
abbrev pub processes : Processes ℕ
processes = record {
  environ = "HOME=/" ∷ [];
  run = λ command n. (record { stdout = command.stdin; stderr = []; error = no_error }, suc n);
}

abbrev pub only : String → WhitelistManager
only command = record { is_allowed = λ name args. name == command }

abbrev pub server : Server
server = new_server (only "cat")

abbrev pub network : Network Body ℕ
network = record {
  check_url = λ url. ok tt;
  send = λ client_timeout timeout req w.
      let answer = handle_execute codec processes server req w in (ok answer.0, answer.1);
}

abbrev client : SidecarExecutor
client = new_sidecar_executor "http://localhost:8081" (only "cat") (pos 30_000_000_000)

connected : IsConnected codec processes server network client.endpoint
connected = record { url_is_valid = refl; arrives = λ client_timeout timeout req w at. refl }

execute-runs_example :
    (let ran =
        processes.run
          (command_for codec processes server hi (hook "cat" "fail") (pos 30_000_000_000))
          0 in
      execute codec network client hi (hook "cat" "fail") 0
      ≡ (outcome codec processes server ran.0, ran.1))
unfolding new_server new_sidecar_executor
execute-runs_example =
    execute-runs codec faithful processes server network client connected hi (hook "cat" "fail")
      (pos 30_000_000_000) 0 refl refl refl

execute-refuses_example :
    (e : String) × (execute codec network client hi (hook "rm" "fail") 0 ≡ (err e, 0))
unfolding new_server new_sidecar_executor
execute-refuses_example =
    execute-refuses codec faithful processes server network client connected hi (hook "rm" "fail") 0
      refl
