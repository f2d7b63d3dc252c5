-- ===== src/Storage/S3.antt =====
-- internal/storage/s3.go: the backend that keeps every object in an S3 bucket. The network, and the
-- functions of packages net/http, net/url, strings and fmt, are parameters.
pub mod Laws
use Prim.Native.String.{◌++◌}
use flux_externalsource_cont.Prelude.{
  ℕ, String, Bool, true, false, not, ◌&&◌, ◌||◌, Option, none, some, List, [], ◌∷◌, Result, ok, err,
  length, ltb, leb, eqb, ◌==◌, if◌then◌else◌,
}
use flux_externalsource_cont.Prelude.Int.{ℤ, pos}
use flux_externalsource_cont.Prelude.Dict.{Dict, insert}
use flux_externalsource_cont.Prelude.Actions.{Action, pure, raise, lift, wrap, ◌>>=◌, ◌>>◌}
use flux_externalsource_cont.Generator.{Bytes}
use flux_externalsource_cont.Storage.{StorageBackend}
use flux_externalsource_cont.Storage.Memory.{has_prefix}

pub record S3Config : Type 0 where
  pub endpoint : String
  pub bucket : String
  pub region : String
  pub access_key : String
  pub secret_key : String
  pub use_ssl : Bool

pub record S3Backend : Type 0 where
  pub endpoint : String
  pub bucket : String
  pub region : String
  pub access_key : String
  pub secret_key : String
  pub use_ssl : Bool
  pub timeout : ℤ

unfoldable pub new_s3_backend : S3Config → S3Backend
new_s3_backend config = record {
  endpoint = config.endpoint;
  bucket = config.bucket;
  region = config.region;
  access_key = config.access_key;
  secret_key = config.secret_key;
  use_ssl = config.use_ssl;
  timeout = pos 30_000_000_000;
}

pub record S3Request : Type 0 where
  pub method : String
  pub url : String
  pub headers : Dict String
  pub body : Bytes

pub record S3Response : Type 0 where
  pub status_code : ℕ
  -- what could be read of the body, and the error
  pub body : Bytes × Option String

pub record S3Library (W : Type 0) : Type 0 where
  pub check_request : (method url : String) → Result String (Unit {0})
  pub send : (timeout : ℤ) → S3Request → Action W S3Response
  -- url.Values.Encode, of the parameters
  pub encode_query : Dict String → String
  -- string(bytes), and fmt's %d
  pub text_of : Bytes → String
  pub print_ℕ : ℕ → String
  -- strings.Split(s, "\n"), and package strings
  pub split_lines : String → List String
  pub trim_space : String → String
  pub has_suffix : (s suffix : String) → Bool
  pub trim_prefix : (s prefix : String) → String
  pub trim_suffix : (s suffix : String) → String

module _ {W : Type 0} (lib : S3Library W) (s : S3Backend) where
  abbrev pub scheme : String
  scheme = if not s.use_ssl then "http" else "https"

  unfoldable pub build_object_url : (key : String) → String
  build_object_url key =
      scheme ++ ("://" ++ (s.endpoint ++ ("/" ++ (s.bucket ++ ("/" ++ lib.trim_prefix key "/")))))

  -- the query is never empty
  unfoldable pub build_list_url : (prefix : String) → String
  unfolding insert
  build_list_url prefix =
      let params = if not (prefix == "") then insert "prefix" prefix [] else [] in
      (scheme ++ ("://" ++ (s.endpoint ++ ("/" ++ s.bucket))))
      ++ ("?" ++ lib.encode_query (insert "list-type" "2" params))

  unfoldable pub get_url : (key : String) → String
  unfolding build_object_url
  get_url key = build_object_url key

  abbrev pub with_authorization : Dict String → Dict String
  with_authorization headers =
      if not (s.access_key == "") && not (s.secret_key == "")
      then insert "Authorization" ("AWS " ++ (s.access_key ++ (":" ++ s.secret_key))) headers
      else headers

  -- `resp.StatusCode < 200 || resp.StatusCode >= 300`
  abbrev pub refused : S3Response → Bool
  refused resp = ltb resp.status_code 200 || leb 300 resp.status_code

  abbrev pub status_error : (what : String) → S3Response → String
  status_error what resp =
      ("S3 " ++ (what ++ " failed with status "))
      ++ (lib.print_ℕ resp.status_code ++ (": " ++ lib.text_of resp.body.0))

  unfoldable pub store : (key : String) → Bytes → Action W String
  unfolding build_object_url insert lift wrap ◌>>=◌
  store key bytes = do
    checked ←
        wrap (λ e. "failed to create HTTP request: " ++ e)
          (lift (lib.check_request "PUT" (build_object_url key)))
    resp ←
        wrap (λ e. "failed to upload to S3: " ++ e)
          (lib.send s.timeout (record {
            method = "PUT";
            url = build_object_url key;
            headers = with_authorization (
                ("Content-Type", "application/octet-stream")
                ∷ ("Content-Length", lib.print_ℕ (length bytes))
                ∷ []);
            body = bytes;
          }))
    lift (if refused resp then err (status_error "upload" resp) else ok (build_object_url key))

  -- the key of one line of a listing
  abbrev pub key_of_line : (line : String) → String
  key_of_line line = lib.trim_suffix (lib.trim_prefix line "<Key>") "</Key>"

  abbrev pub add_key : (prefix line : String) → List String → List String
  add_key prefix line keys =
      if has_prefix line "<Key>" && lib.has_suffix line "</Key>"
      then (if has_prefix (key_of_line line) prefix then key_of_line line ∷ keys else keys)
      else keys

  -- the loop over the lines
  unfoldable pub keys_of_lines : (prefix : String) → List String → List String
  keys_of_lines prefix [] = []
  keys_of_lines prefix (line ∷ lines) =
      add_key prefix (lib.trim_space line) (keys_of_lines prefix lines)

  unfoldable pub parse_list_response : (body prefix : String) → List String
  unfolding keys_of_lines
  parse_list_response body prefix = keys_of_lines prefix (lib.split_lines body)

  abbrev pub parse_body : (prefix : String) → Bytes × Option String → Result String (List String)
  parse_body prefix (bytes, none) = ok (parse_list_response (lib.text_of bytes) prefix)
  parse_body prefix (bytes, some e) = err ("failed to read list response: " ++ e)

  unfoldable pub list : (prefix : String) → Action W (List String)
  unfolding build_list_url parse_list_response insert lift wrap ◌>>=◌
  list prefix = do
    checked ←
        wrap (λ e. "failed to create list request: " ++ e)
          (lift (lib.check_request "GET" (build_list_url prefix)))
    resp ←
        wrap (λ e. "failed to list objects: " ++ e)
          (lib.send s.timeout (record {
            method = "GET";
            url = build_list_url prefix;
            headers = with_authorization [];
            body = [];
          }))
    lift (if refused resp then err (status_error "list" resp) else parse_body prefix resp.body)

  unfoldable pub delete : (key : String) → Action W (Unit {0})
  unfolding build_object_url insert lift wrap ◌>>=◌
  delete key = do
    checked ←
        wrap (λ e. "failed to create delete request: " ++ e)
          (lift (lib.check_request "DELETE" (build_object_url key)))
    resp ←
        wrap (λ e. "failed to delete object: " ++ e)
          (lib.send s.timeout (record {
            method = "DELETE";
            url = build_object_url key;
            headers = with_authorization [];
            body = [];
          }))
    lift (
        if not (eqb resp.status_code 204) && not (eqb resp.status_code 200)
        then err (status_error "delete" resp)
        else ok tt)

  unfoldable pub retrieve : (key : String) → Action W Bytes
  retrieve key w = (err "S3 artifacts are accessed directly from S3, not through the controller", w)

  -- the backend, behind the interface
  unfoldable pub s3_storage : StorageBackend W
  unfolding store list delete retrieve get_url
  s3_storage = record {
    store = store;
    list = list;
    delete = delete;
    get_url = λ key w. get_url key;
    retrieve = retrieve;
  }
