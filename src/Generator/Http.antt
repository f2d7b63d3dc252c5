-- ===== src/Generator/Http.antt =====
-- internal/generator/http.go: the generator that fetches a URL.
pub mod Requests
pub mod Steady
use Prim.Native.String.{◌++◌}
use flux_externalsource_cont.Prelude.{
  String, Bool, true, false, not, ◌&&◌, ◌||◌, Option, none, some, List, [], ◌∷◌, Result, ok, err,
  ◌==◌, if◌then◌else◌,
}
use flux_externalsource_cont.Prelude.Int.{ℤ, pos, ltb_ℤ, leb_ℤ}
use flux_externalsource_cont.Prelude.Dict.{Dict, lookup, insert}
use flux_externalsource_cont.Prelude.Actions.{Action, pure, lift, wrap, ◌>>=◌}
use flux_externalsource_cont.Generator.{
  GeneratorConfig, Value, text, flag, SourceData, SourceGenerator, Bytes,
}

pub record HttpConfig : Type 0 where
  pub url : String
  pub method : String
  pub headers : Dict String
  pub ca_bundle : Bytes
  pub insecure_skip_verify : Bool

pub record HttpClientConfig : Type 0 where
  pub timeout : ℤ
  pub max_idle_conns : ℤ
  pub max_idle_conns_per_host : ℤ
  pub max_conns_per_host : ℤ
  pub idle_conn_timeout : ℤ
  pub user_agent : String

-- The fields of `http.Transport` and `tls.Config` that the generator sets. Certificates are the
-- bundle that they were read from.
pub record Transport : Type 0 where
  pub max_idle_conns : ℤ
  pub max_idle_conns_per_host : ℤ
  pub max_conns_per_host : ℤ
  pub idle_conn_timeout : ℤ
  pub insecure_skip_verify : Bool
  pub root_cas : Option Bytes

-- `http.Client`; no transport stands for the default one.
pub record HttpClient : Type 0 where
  pub transport : Option Transport
  pub timeout : ℤ

pub record Request : Type 0 where
  pub method : String
  pub url : String
  pub headers : Dict String

pub record Response : Type 0 where
  pub status_code : ℤ
  pub status : String
  pub header : String → String
  -- what reading the body to its end gives
  pub body : Result String Bytes

-- The Kubernetes client, and the functions of the Go library that the generator calls: the world
-- `W` holds the cluster and the network.
pub record HttpLibrary (W : Type 0) : Type 0 where
  -- a secret's data, by namespace and name
  pub get_secret : (namespace name : String) → Action W (Dict Bytes)
  -- string(bytes)
  pub text_of : Bytes → String
  -- x509.CertPool.AppendCertsFromPEM
  pub append_certs_from_pem : Bytes → Bool
  -- whether http.NewRequest takes the method and the URL
  pub check_request : (method url : String) → Result String (Unit {0})
  -- http.CanonicalHeaderKey, which Header.Set uses
  pub canonical : String → String
  -- http.Client.Do
  pub send : HttpClient → Request → Action W Response
  -- fmt's %d
  pub print_int : ℤ → String

pub record HttpGenerator : Type 0 where
  pub http_client : HttpClient
  pub user_agent : String

unfoldable pub new_http_generator : HttpGenerator
new_http_generator = record {
  http_client = record { transport = none; timeout = pos 30_000_000_000 };
  user_agent = "externalsource-controller/1.0";
}

unfoldable pub new_http_generator_with_config : HttpClientConfig → HttpGenerator
new_http_generator_with_config config = record {
  http_client = record {
    transport = some (record {
      max_idle_conns = config.max_idle_conns;
      max_idle_conns_per_host = config.max_idle_conns_per_host;
      max_conns_per_host = config.max_conns_per_host;
      idle_conn_timeout = config.idle_conn_timeout;
      insecure_skip_verify = false;
      root_cas = none;
    });
    timeout = config.timeout;
  };
  user_agent = config.user_agent;
}

-- `v, _ := config[key].(string)`
abbrev pub string_of : Option Value → String
string_of (some (text s)) = s
string_of (some (flag b)) = ""
string_of none = ""

-- `if b, ok := config[key].(bool); ok`
abbrev pub bool_of : Option Value → Bool
bool_of (some (flag b)) = b
bool_of (some (text s)) = false
bool_of none = false

-- `for k, v := range m { into[k] = f(v) }`
unfoldable pub insert_all {ℓ κ} : {U : Type ℓ} {V : Type κ} → (U → V) → Dict U → Dict V → Dict V
unfolding insert
insert_all f [] into = into
insert_all f ((k, v) ∷ m) into = insert_all f m (insert k (f v) into)

module _ {W : Type 0} (lib : HttpLibrary W) where
  abbrev pub secret_at : (namespace name : String) → String
  secret_at namespace name = namespace ++ ("/" ++ name)

  abbrev pub key_of_secret : (namespace name key : String) → Option Bytes → Result String Bytes
  key_of_secret namespace name key none =
      err (("key " ++ key) ++ (" not found in secret " ++ secret_at namespace name))
  key_of_secret namespace name key (some bytes) = ok bytes

  unfoldable pub load_secret_data : (namespace name key : String) → Action W Bytes
  unfolding wrap lift ◌>>=◌ lookup
  load_secret_data namespace name key = do
    secret ←
        wrap (λ e. ("failed to get secret " ++ secret_at namespace name) ++ (": " ++ e))
          (lib.get_secret namespace name)
    lift (key_of_secret namespace name key (lookup key secret))

  unfoldable pub load_headers : (namespace secret_name : String) → Action W (Dict String)
  unfolding wrap pure ◌>>=◌ insert_all
  load_headers namespace secret_name = do
    secret ←
        wrap
          (λ e. ("failed to get headers secret " ++ secret_at namespace secret_name) ++ (": " ++ e))
          (lib.get_secret namespace secret_name)
    pure (insert_all lib.text_of secret [])

  unfoldable pub headers_from : (namespace secret_name : String) → Action W (Dict String)
  unfolding load_headers
  headers_from namespace secret_name w =
      let loaded =
        (do
          headers ←
              wrap (λ e. "failed to load headers from secret: " ++ e)
                (load_headers namespace secret_name)
          pure (insert_all (λ v. v) headers []))
          w in
      if secret_name == "" then (ok [], w) else loaded

  unfoldable pub ca_bundle_from : (namespace secret_name key : String) → Action W Bytes
  unfolding load_secret_data
  ca_bundle_from namespace secret_name key w =
      let loaded =
        wrap (λ e. "failed to load CA bundle from secret: " ++ e)
          (load_secret_data namespace secret_name (if key == "" then "ca.crt" else key)) w in
      if secret_name == "" then (ok [], w) else loaded

  abbrev pub or_default : String → String → String
  or_default value default_value = if value == "" then default_value else value

  -- `parseConfig` behind its test of the URL
  unfoldable pub parse_rest : Dict Value → (url : String) → Action W HttpConfig
  unfolding headers_from ca_bundle_from lookup
  parse_rest config url = do
    headers ←
        headers_from (or_default (string_of (lookup "namespace" config)) "default")
          (string_of (lookup "headersSecretName" config))
    ca_bundle ←
        ca_bundle_from (or_default (string_of (lookup "namespace" config)) "default")
          (string_of (lookup "caBundleSecretName" config))
          (string_of (lookup "caBundleSecretKey" config))
    pure (record {
      url = url;
      method = or_default (string_of (lookup "method" config)) "GET";
      headers = headers;
      ca_bundle = ca_bundle;
      insecure_skip_verify = bool_of (lookup "insecureSkipVerify" config);
    })

  abbrev pub parse_with_url : Dict Value → Option Value → Action W HttpConfig
  parse_with_url config (some (text url)) = parse_rest config url
  parse_with_url config (some (flag b)) = λ w. (err "url is required and must be a string", w)
  parse_with_url config none = λ w. (err "url is required and must be a string", w)

  unfoldable pub parse_config : Dict Value → Action W HttpConfig
  unfolding parse_rest
  parse_config config = parse_with_url config (lookup "url" config)

  module _ (h : HttpGenerator) where
    abbrev pub client_with : HttpConfig → Option Bytes → HttpClient
    client_with config root_cas = record {
      transport = some (record {
        max_idle_conns = pos 0;
        max_idle_conns_per_host = pos 0;
        max_conns_per_host = pos 0;
        idle_conn_timeout = pos 0;
        insecure_skip_verify = config.insecure_skip_verify;
        root_cas = root_cas;
      });
      timeout = h.http_client.timeout;
    }

    abbrev pub with_ca_bundle : HttpConfig → Bytes → Result String HttpClient
    with_ca_bundle config [] = ok (client_with config none)
    with_ca_bundle config (b ∷ bundle) =
        if lib.append_certs_from_pem (b ∷ bundle)
        then ok (client_with config (some (b ∷ bundle)))
        else err "failed to parse CA bundle"

    unfoldable pub configure_http_client : HttpConfig → Result String HttpClient
    configure_http_client config = with_ca_bundle config config.ca_bundle

    abbrev pub set_header : (key value : String) → Dict String → Dict String
    set_header key value headers = insert (lib.canonical key) value headers

    unfoldable pub set_headers : Dict String → Dict String → Dict String
    unfolding insert
    set_headers [] headers = headers
    set_headers ((key, value) ∷ rest) headers = set_headers rest (set_header key value headers)

    -- the request that is sent: the User-Agent, then the secret's headers, which may replace it
    abbrev pub request : (method : String) → HttpConfig → Request
    request method config = record {
      method = method;
      url = config.url;
      headers =
          set_headers config.headers
            (if h.user_agent == "" then [] else set_header "User-Agent" h.user_agent []);
    }

    -- `resp.StatusCode < 200 || resp.StatusCode >= 300`
    abbrev pub refused : Response → Bool
    refused resp = ltb_ℤ resp.status_code (pos 200) || leb_ℤ (pos 300) resp.status_code

    abbrev pub status_message : Response → String
    status_message resp = lib.print_int resp.status_code ++ (": " ++ resp.status)

    abbrev pub source_data : Response → Bytes → SourceData
    source_data resp bytes = record {
      bytes = bytes;
      last_modified = resp.header "ETag";
      metadata =
          ("content-type", resp.header "Content-Type")
          ∷ ("content-length", resp.header "Content-Length")
          ∷ ("etag", resp.header "ETag")
          ∷ [];
    }

    abbrev pub read_body : Response → Result String Bytes → Result String SourceData
    read_body resp (err e) = err ("failed to read response body: " ++ e)
    read_body resp (ok bytes) = ok (source_data resp bytes)

    abbrev pub fetched : Response → Result String SourceData
    fetched resp =
        if refused resp
        then err ("HTTP request failed with status " ++ status_message resp)
        else read_body resp resp.body

    abbrev pub checked_etag : Response → Result String String
    checked_etag resp =
        if refused resp
        then err ("HEAD request failed with status " ++ status_message resp)
        else ok (resp.header "ETag")

    unfoldable pub fetch_answer : HttpConfig → HttpClient → Action W SourceData
    unfolding set_headers lift wrap ◌>>=◌
    fetch_answer config client = do
      resp ←
          wrap (λ e. "HTTP request failed: " ++ e) (lib.send client (request config.method config))
      lift (fetched resp)

    unfoldable pub fetch_with : HttpConfig → Action W SourceData
    unfolding fetch_answer configure_http_client
    fetch_with config = do
      client ←
          wrap (λ e. "failed to configure HTTP client: " ++ e) (lift (configure_http_client config))
      checked ←
          wrap (λ e. "failed to create HTTP request: " ++ e)
            (lift (lib.check_request config.method config.url))
      fetch_answer config client

    unfoldable pub generate : GeneratorConfig → Action W SourceData
    unfolding parse_config fetch_with
    generate c = do
      config ← wrap (λ e. "failed to parse HTTP config: " ++ e) (parse_config c.config)
      fetch_with config

    unfoldable pub check_answer : HttpConfig → HttpClient → Action W String
    unfolding set_headers lift wrap ◌>>=◌
    check_answer config client = do
      resp ← wrap (λ e. "HEAD request failed: " ++ e) (lib.send client (request "HEAD" config))
      lift (checked_etag resp)

    unfoldable pub check_with : HttpConfig → Action W String
    unfolding check_answer configure_http_client
    check_with config = do
      client ←
          wrap (λ e. "failed to configure HTTP client: " ++ e) (lift (configure_http_client config))
      checked ←
          wrap (λ e. "failed to create HEAD request: " ++ e)
            (lift (lib.check_request "HEAD" config.url))
      check_answer config client

    unfoldable pub get_last_modified : GeneratorConfig → Action W String
    unfolding parse_config check_with
    get_last_modified c = do
      config ← wrap (λ e. "failed to parse HTTP config: " ++ e) (parse_config c.config)
      check_with config

    -- `SupportsConditionalFetch` is always true.
    unfoldable pub http_generator : SourceGenerator W
    unfolding generate get_last_modified
    http_generator = record {
      generate = generate;
      supports_conditional_fetch = true;
      get_last_modified = get_last_modified;
    }
