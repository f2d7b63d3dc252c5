-- ===== src/Tests/Network.antt =====
-- The theorems on the HTTP generator, with a server that always answers the same.
use flux_externalsource_cont.Prelude.{
  ℕ, suc, String, ◌≡◌, refl, ap, true, false, [], ◌∷◌, Result, ok,
}
use flux_externalsource_cont.Prelude.Int.{pos}
use flux_externalsource_cont.Prelude.Dict.{lookup}
use flux_externalsource_cont.Generator.{GeneratorConfig, SourceData, text}
use flux_externalsource_cont.Generator.Http.{
  HttpLibrary, HttpGenerator, HttpConfig, HttpClient, Response, parse_config, configure_http_client,
  request, generate, get_last_modified, new_http_generator,
}
use flux_externalsource_cont.Generator.Http.Requests.{IsSuccess, generate-ok}
use flux_externalsource_cont.Generator.Http.Steady.{IsSteady, get_last_modified-generate}
use flux_externalsource_cont.Controller.Settings.{create_generator_config}
use flux_externalsource_cont.Controller.Settings.Laws.{
  described, parse_config-create_generator_config,
}
use flux_externalsource_cont.Tests.{source, hi, spec_of_http}

abbrev pub answer : Response
answer = record { status_code = pos 200; status = "200 OK"; header = λ key. "v1"; body = ok hi }

-- the world counts the requests
abbrev pub http : HttpLibrary ℕ
http = record {
  get_secret = λ namespace name n. (ok (("X-Token", hi) ∷ ("ca.crt", hi) ∷ []), n);
  text_of = λ bytes. "hi";
  append_certs_from_pem = λ bytes. true;
  check_request = λ method url. ok tt;
  canonical = λ key. key;
  send = λ client req n. (ok answer, suc n);
  print_int = λ n. "n";
}

the_answer : {resp : Response} → Path (Result String Response) (ok answer) (ok resp) → answer ≡ resp
the_answer e = cc

steady : IsSteady http
steady = record {
  reads = λ namespace name w. refl;
  keeps_secrets = λ namespace name client req w. refl;
  head_is_valid = λ url valid. refl;
  get_is_safe = λ client req other w gets. refl;
  head_as_get = λ client req resp w gets sent.
      let same = the_answer {resp = resp} sent in
      (answer, refl, ap (λ r. r.status_code) same, ap (λ r. r.header "ETag") same);
}

generator : HttpGenerator
generator = new_http_generator

abbrev settings : GeneratorConfig
settings = record {
  type = "http";
  config =
      ("url", text "https://a")
      ∷ ("headersSecretName", text "h")
      ∷ ("caBundleSecretName", text "c")
      ∷ [];
}

abbrev downloaded : SourceData
downloaded = record {
  bytes = hi;
  last_modified = "v1";
  metadata = ("content-type", "v1") ∷ ("content-length", "v1") ∷ ("etag", "v1") ∷ [];
}

downloads : generate http generator settings 4 ≡ (ok downloaded, 5)
unfolding generate
downloads = refl

get_last_modified-generate_example :
    (w : ℕ) × (get_last_modified http generator settings 5 ≡ (ok downloaded.last_modified, w))
unfolding lookup
get_last_modified-generate_example =
    get_last_modified-generate http steady generator settings 4 5 downloaded refl downloads

generate-ok_example :
    (config : HttpConfig) × (client : HttpClient) × (resp : Response) × (w₁ : ℕ) × (parse_config
        http settings.config 4
      ≡ (ok config, w₁))
    × (configure_http_client http generator config ≡ ok client)
    × (http.check_request config.method config.url ≡ ok tt)
    × (http.send client (request http generator config.method config) w₁ ≡ (ok resp, 5))
    × IsSuccess resp
    × (resp.body ≡ ok downloaded.bytes)
    × (downloaded.last_modified ≡ resp.header "ETag")
generate-ok_example = generate-ok http generator settings 4 5 downloaded downloads

parse_config-create_generator_config_example :
    (c : GeneratorConfig) × (create_generator_config (source "v1" [] false) ≡ ok c)
    × (parse_config http c.config 4 ≡ described http "n" spec_of_http 4)
parse_config-create_generator_config_example =
    parse_config-create_generator_config http (source "v1" [] false) spec_of_http 4 refl refl
