-- ===== src/Generator/Http/Requests.antt =====
-- What is sent, and what is made of the answer.
use flux_externalsource_cont.Prelude.{
  String, ◌≡◌, ap, ◌∙◌, false, Bool-cases, inl, inr, ok, err, Result, arith,
}
use flux_externalsource_cont.Prelude.Int.{pos, ◌≤ℤ◌, ◌<ℤ◌}
use flux_externalsource_cont.Prelude.Actions.{lift, wrap_bind-ok, lift_bind-ok}
use flux_externalsource_cont.Generator.{GeneratorConfig, SourceData, Bytes}
use flux_externalsource_cont.Generator.Http.{
  HttpLibrary, HttpGenerator, HttpConfig, HttpClient, Response, parse_config, configure_http_client,
  request, refused, fetched, read_body, fetch_answer, fetch_with, generate,
}

abbrev pub IsSuccess : Response → Type 0
IsSuccess resp = (pos 200 ≤ℤ resp.status_code) × (resp.status_code <ℤ pos 300)

err-ne-ok : {m : String} {d : SourceData} → Path (Result String SourceData) (err m) (ok d) → ⊥
err-ne-ok e = cc

module _ {W : Type 0} (lib : HttpLibrary W) (h : HttpGenerator) where
  refused-IsSuccess : (resp : Response) → refused lib h resp ≡ false → IsSuccess resp
  refused-IsSuccess resp e = ground arith

  pub IsSuccess-refused : (resp : Response) → IsSuccess resp → refused lib h resp ≡ false
  IsSuccess-refused resp s = ground arith

  read_body-ok :
      (resp : Response) (body : Result String Bytes) (d : SourceData)
      → read_body lib h resp body ≡ ok d
      → (body ≡ ok d.bytes) × (d.last_modified ≡ resp.header "ETag")
  read_body-ok resp (ok bytes) d e = (cc, cc)
  read_body-ok resp (err m) d e = cc

  fetched-ok :
      (resp : Response) (d : SourceData)
      → fetched lib h resp ≡ ok d
      → IsSuccess resp × (resp.body ≡ ok d.bytes) × (d.last_modified ≡ resp.header "ETag")
  fetched-ok resp d e = elim (Bool-cases (refused lib h resp)) [
    | inl bad ↦ absurd (err-ne-ok (rw bad at e))
    | inr good ↦
        let (body, etag) = read_body-ok resp resp.body d (rw good at e) in
        (refused-IsSuccess resp good, body, etag)
  ]

  pub fetch_with-ok :
      (config : HttpConfig) (w w' : W) (d : SourceData)
      → fetch_with lib h config w ≡ (ok d, w')
      → (client : HttpClient) × (resp : Response) × (configure_http_client lib h config ≡ ok client)
        × (lib.check_request config.method config.url ≡ ok tt)
        × (lib.send client (request lib h config.method config) w ≡ (ok resp, w'))
        × IsSuccess resp
        × (resp.body ≡ ok d.bytes)
        × (d.last_modified ≡ resp.header "ETag")
  unfolding fetch_with fetch_answer lift
  fetch_with-ok config w w' d e =
      let (client, configured, rest) = lift_bind-ok _ (configure_http_client lib h config) _ w e in
      let (checked, valid, sent) =
        lift_bind-ok _ (lib.check_request config.method config.url) _ w rest in
      let (resp, w₁, answer, final) =
        wrap_bind-ok _ (lib.send client (request lib h config.method config)) _ w sent in
      let (good, body, etag) = fetched-ok resp d (ap (λ x. x.0) final) in
      (client, resp, configured, valid, answer ∙ ap (λ x. (ok resp, x.1)) final, good, body, etag)

  -- If a fetch returns data, then the settings could be read, the server answered the request that
  -- they describe with a status from 200 to 299, and the data are its body and its ETag.
  pub generate-ok :
      (c : GeneratorConfig) (w w' : W) (d : SourceData)
      → generate lib h c w ≡ (ok d, w')
      → (config : HttpConfig) × (client : HttpClient) × (resp : Response) × (w₁ : W) × (parse_config
            lib c.config w
          ≡ (ok config, w₁))
        × (configure_http_client lib h config ≡ ok client)
        × (lib.check_request config.method config.url ≡ ok tt)
        × (lib.send client (request lib h config.method config) w₁ ≡ (ok resp, w'))
        × IsSuccess resp
        × (resp.body ≡ ok d.bytes)
        × (d.last_modified ≡ resp.header "ETag")
  unfolding generate
  generate-ok c w w' d e =
      let (config, w₁, parsed, rest) =
        wrap_bind-ok _ (parse_config lib c.config) (fetch_with lib h) w e in
      let (client, resp, configured, valid, sent, good, body, etag) =
        fetch_with-ok config w₁ w' d rest in
      (config, client, resp, w₁, parsed, configured, valid, sent, good, body, etag)
