-- ===== src/Hooks/Protocol.antt =====
-- What the controller and the hook executor's sidecar exchange, and the functions of the Go
-- library that they call. The two programs declare the request and the response each for itself,
-- with the same fields and tags.
use flux_externalsource_cont.Prelude.{ℕ, String, Option, List, Result}
use flux_externalsource_cont.Prelude.Int.{ℤ}
use flux_externalsource_cont.Prelude.Dict.{Dict}
use flux_externalsource_cont.Prelude.Actions.{Action}
use flux_externalsource_cont.Generator.{Bytes}

pub record ExecuteRequest : Type 0 where
  pub command : String
  pub args : List String
  pub timeout : String
  pub env : Dict String
  pub stdin : String

pub record ExecuteResponse : Type 0 where
  pub stdout : String
  pub stderr : String
  pub exit_code : ℤ

-- an HTTP request, and an answer whose body may fail to be read
pub record HookRequest (Body : Type 0) : Type 0 where
  pub method : String
  pub url : String
  pub content_type : String
  pub body : Body

pub record HookReply (Body : Type 0) : Type 0 where
  pub status_code : ℕ
  pub body : Result String Body

-- Packages encoding/base64, encoding/json, time and fmt. `Body` is the bytes of an HTTP body, at
-- which only these functions look.
pub record Codec : Type 1 where
  pub Body : Type 0
  pub encode_base64 : Bytes → String
  -- what could be decoded, and the error
  pub decode_base64 : String → Bytes × Option String
  pub marshal_request : ExecuteRequest → Result String Body
  pub unmarshal_request : Body → Result String ExecuteRequest
  pub marshal_response : ExecuteResponse → Result String Body
  pub unmarshal_response : Body → Result String ExecuteResponse
  pub parse_duration : String → Result String ℤ
  -- string(bytes) and []byte(text)
  pub text_of : Bytes → String
  pub bytes_of : String → Bytes
  pub text_of_body : Body → String
  pub body_of : String → Body
  pub print_args : List String → String
  pub print_int : ℤ → String

-- how `cmd.Run` ends
pub data RunError : Type 0 where
  no_error : RunError
  exit_error : ℤ → RunError
  other_error : String → RunError

pub record Run : Type 0 where
  pub stdout : Bytes
  pub stderr : Bytes
  pub error : RunError

-- `exec.Cmd`, with the timeout of its context; no environment stands for the process's own.
pub record Command : Type 0 where
  pub name : String
  pub args : List String
  pub stdin : Bytes
  pub env : Option (List String)
  pub timeout : ℤ

-- The network between the two, as the controller sees it: `http.NewRequest`'s test of the URL,
-- and `Do`, under the client's timeout and the context's.
pub record Network (Body W : Type 0) : Type 0 where
  pub check_url : String → Result String (Unit {0})
  pub send : (client_timeout timeout : ℤ) → HookRequest Body → Action W (HookReply Body)

-- The sidecar's processes.
pub record Processes (W : Type 0) : Type 0 where
  pub environ : List String
  pub run : Command → W → Run × W
