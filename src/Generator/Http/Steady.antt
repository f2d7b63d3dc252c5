-- ===== src/Generator/Http/Steady.antt =====
-- The check of the ETag against a fetch, where nothing changes in between.
use flux_externalsource_cont.Prelude.{
  String, ◌≡◌, refl, sym, ap, subst, ◌∙◌, Bool, true, false, Option, ok, err, Result, map_err, ◌==◌,
  if◌then◌else◌, [],
}
use flux_externalsource_cont.Prelude.Dict.{Dict, lookup}
use flux_externalsource_cont.Prelude.Actions.{
  Action, pure, lift, wrap, ◌>>=◌, continue, continue-ok,
}
use flux_externalsource_cont.Generator.{GeneratorConfig, SourceData, Value, text, flag}
use flux_externalsource_cont.Generator.Http.{
  HttpLibrary, HttpGenerator, HttpConfig, HttpClient, Request, Response, load_secret_data,
  load_headers, headers_from, ca_bundle_from, parse_rest, parse_with_url, parse_config, request,
  or_default, string_of, checked_etag, check_answer, check_with, generate, get_last_modified,
}
use flux_externalsource_cont.Generator.Http.Requests.{IsSuccess, IsSuccess-refused, generate-ok}

ok_inj {κ} : {A : Type κ} {a b : A} → Path (Result String A) (ok a) (ok b) → a ≡ b
ok_inj e = cc

-- two worlds in which an action gives the same, and changes nothing
record Agrees {ℓ} {W : Type 0} {A : Type ℓ} (m : Action W A) (w w' : W) : Type ℓ where
  result : Result String A
  here : m w ≡ (result, w)
  there : m w' ≡ (result, w')

module _ {W : Type 0} (w w' : W) where
  pure-Agrees {ℓ} : {A : Type ℓ} (a : A) → Agrees (pure a) w w'
  unfolding pure
  pure-Agrees a = record { result = ok a; here = refl; there = refl }

  lift-Agrees {ℓ} : {A : Type ℓ} (x : Result String A) → Agrees (lift x) w w'
  unfolding lift
  lift-Agrees x = record { result = x; here = refl; there = refl }

  wrap-Agrees {ℓ} :
      {A : Type ℓ} (g : String → String) (m : Action W A) → Agrees m w w' → Agrees (wrap g m) w w'
  unfolding wrap
  wrap-Agrees g m h = record {
    result = map_err g h.result;
    here = rw h.here refl;
    there = rw h.there refl;
  }

  continue-Agrees {ℓ κ} :
      {A : Type ℓ} {B : Type κ} (x : Result String A) (f : A → Action W B)
      → ((a : A) → Agrees (f a) w w')
      → Agrees (continue x f) w w'
  continue-Agrees (ok a) f h = h a
  continue-Agrees (err e) f h = record { result = err e; here = refl; there = refl }

  bind-Agrees {ℓ κ} :
      {A : Type ℓ} {B : Type κ} (m : Action W A) (f : A → Action W B)
      → Agrees m w w'
      → ((a : A) → Agrees (f a) w w')
      → Agrees (m >>= f) w w'
  unfolding ◌>>=◌
  bind-Agrees m f first rest =
      let both = continue-Agrees first.result f rest in
      record {
        result = both.result;
        here = rw first.here both.here;
        there = rw first.there both.there;
      }

  if-Agrees {ℓ} :
      {A : Type ℓ} (b : Bool) (a : A) (m : Action W A)
      → Agrees m w w'
      → Agrees (λ v. if b then (ok a, v) else m v) w w'
  if-Agrees true a m h = record { result = ok a; here = refl; there = refl }
  if-Agrees false a m h = h

  module _ (lib : HttpLibrary W)
      (same : (namespace name : String) → Agrees (lib.get_secret namespace name) w w') where
    load_headers-Agrees : (namespace name : String) → Agrees (load_headers lib namespace name) w w'
    unfolding load_headers
    load_headers-Agrees namespace name =
        bind-Agrees _ _ (wrap-Agrees _ _ (same namespace name)) λ secret. pure-Agrees _

    load_secret_data-Agrees :
        (namespace name key : String) → Agrees (load_secret_data lib namespace name key) w w'
    unfolding load_secret_data
    load_secret_data-Agrees namespace name key =
        bind-Agrees _ _ (wrap-Agrees _ _ (same namespace name)) λ secret. lift-Agrees _

    headers_from-Agrees : (namespace name : String) → Agrees (headers_from lib namespace name) w w'
    unfolding headers_from
    headers_from-Agrees namespace name = if-Agrees (name == "") [] _ (
        bind-Agrees _ _ (wrap-Agrees _ _ (load_headers-Agrees namespace name))
          λ headers. pure-Agrees _)

    ca_bundle_from-Agrees :
        (namespace name key : String) → Agrees (ca_bundle_from lib namespace name key) w w'
    unfolding ca_bundle_from
    ca_bundle_from-Agrees namespace name key =
        if-Agrees (name == "") [] _ (wrap-Agrees _ _ (load_secret_data-Agrees namespace name _))

    parse_rest-Agrees :
        (config : Dict Value) (url : String) → Agrees (parse_rest lib config url) w w'
    unfolding parse_rest
    parse_rest-Agrees config url =
        search (bind-Agrees, headers_from-Agrees, ca_bundle_from-Agrees, pure-Agrees) depth 12

    parse_with_url-Agrees :
        (config : Dict Value) (url : Option Value) → Agrees (parse_with_url lib config url) w w'
    parse_with_url-Agrees config (Option.some (text url)) = parse_rest-Agrees config url
    parse_with_url-Agrees config (Option.some (flag b)) = record {
      result = err _;
      here = refl;
      there = refl;
    }
    parse_with_url-Agrees config Option.none = record { result = err _; here = refl; there = refl }

    parse_config-Agrees : (config : Dict Value) → Agrees (parse_config lib config) w w'
    unfolding parse_config
    parse_config-Agrees config = parse_with_url-Agrees config (lookup "url" config)

-- A cluster and a network in which nothing but the program's own requests changes anything, and
-- servers that keep to HTTP (RFC 9110): reading a secret changes nothing, a request does not change
-- the secrets, a URL that is valid for GET is valid for HEAD, a GET is safe (9.2.1), and a HEAD is
-- answered with the status and the ETag of the GET in its place (9.3.2).
pub record IsSteady {W : Type 0} (lib : HttpLibrary W) : Type 0 where
  pub reads : (namespace name : String) (w : W) → (lib.get_secret namespace name w).1 ≡ w
  pub keeps_secrets :
      (namespace name : String) (client : HttpClient) (req : Request) (w : W)
      → (lib.get_secret namespace name (lib.send client req w).1).0
        ≡ (lib.get_secret namespace name w).0
  pub head_is_valid :
      (url : String) → lib.check_request "GET" url ≡ ok tt → lib.check_request "HEAD" url ≡ ok tt
  pub get_is_safe :
      (client : HttpClient) (req other : Request) (w : W)
      → req.method ≡ "GET"
      → (lib.send client other (lib.send client req w).1).0 ≡ (lib.send client other w).0
  pub head_as_get :
      (client : HttpClient) (req : Request) (resp : Response) (w : W)
      → req.method ≡ "GET"
      → (lib.send client req w).0 ≡ ok resp
      → (head : Response) × ((lib.send client (record req { method = "HEAD" }) w).0 ≡ ok head)
        × (head.status_code ≡ resp.status_code)
        × (head.header "ETag" ≡ resp.header "ETag")

module _ {W : Type 0} (lib : HttpLibrary W) (steady : IsSteady lib) (h : HttpGenerator) where
  -- the secrets read the same before and behind a request
  get_secret-Agrees :
      (client : HttpClient) (req : Request) (w : W) (namespace name : String)
      → Agrees (lib.get_secret namespace name) w (lib.send client req w).1
  get_secret-Agrees client req w namespace name = record {
    result = (lib.get_secret namespace name w).0;
    here = λ i. ((lib.get_secret namespace name w).0, steady.reads namespace name w i);
    there = λ i. (
      steady.keeps_secrets namespace name client req w i,
      steady.reads namespace name (lib.send client req w).1 i,
    );
  }

  checked_etag-ok :
      (resp : Response) → IsSuccess resp → checked_etag lib h resp ≡ ok (resp.header "ETag")
  checked_etag-ok resp good = rw (IsSuccess-refused lib h resp good) refl

  parse_config-behind :
      (s : Dict Value) (config : HttpConfig) (client : HttpClient) (req : Request) (resp : Response)
      (w w₁ w' : W)
      → parse_config lib s w ≡ (ok config, w₁)
      → lib.send client req w₁ ≡ (ok resp, w')
      → parse_config lib s w' ≡ (ok config, w')
  parse_config-behind s config client req resp w w₁ w' parsed sent =
      let both = parse_config-Agrees w _ lib (get_secret-Agrees client req w) s in
      let here : parse_config lib s w ≡ (both.result, w) = both.here in
      let there : parse_config lib s (lib.send client req w).1
          ≡ (both.result, (lib.send client req w).1) =
        both.there in
      cc

  parse_rest-method :
      (s : Dict Value) (url : String) (config : HttpConfig) (w w₁ : W)
      → parse_rest lib s url w ≡ (ok config, w₁)
      → config.method ≡ or_default lib (string_of (lookup "method" s)) "GET"
  unfolding parse_rest pure ◌>>=◌
  parse_rest-method s url config w w₁ e =
      let namespace = or_default lib (string_of (lookup "namespace" s)) "default" in
      let headers = headers_from lib namespace (string_of (lookup "headersSecretName" s)) w in
      let (read, first, rest) = continue-ok headers.0 _ _ e in
      let bundle =
        ca_bundle_from lib namespace (string_of (lookup "caBundleSecretName" s))
          (string_of (lookup "caBundleSecretKey" s)) headers.1 in
      let (certificates, second, final) = continue-ok bundle.0 _ _ rest in
      ap (λ (c : HttpConfig). c.method) (sym (ok_inj (ap (λ x. x.0) final)))

  parse_with_url-method :
      (s : Dict Value) (url : Option Value) (config : HttpConfig) (w w₁ : W)
      → parse_with_url lib s url w ≡ (ok config, w₁)
      → config.method ≡ or_default lib (string_of (lookup "method" s)) "GET"
  parse_with_url-method s (Option.some (text url)) config w w₁ e =
      parse_rest-method s url config w w₁ e
  parse_with_url-method s (Option.some (flag b)) config w w₁ e = absurd (cc)
  parse_with_url-method s Option.none config w w₁ e = absurd (cc)

  parse_config-method :
      (s : Dict Value) (config : HttpConfig) (w w₁ : W)
      → parse_config lib s w ≡ (ok config, w₁)
      → config.method ≡ or_default lib (string_of (lookup "method" s)) "GET"
  unfolding parse_config
  parse_config-method s config w w₁ e = parse_with_url-method s (lookup "url" s) config w w₁ e

  -- the HEAD request behind a GET that succeeded
  head_behind :
      (config : HttpConfig) (client : HttpClient) (resp : Response) (w w' : W)
      → config.method ≡ "GET"
      → lib.send client (request lib h config.method config) w ≡ (ok resp, w')
      → IsSuccess resp
      → (head : Response) × IsSuccess head
        × (head.header "ETag" ≡ resp.header "ETag")
        × (lib.send client (request lib h "HEAD" config) w'
            ≡ (ok head, (lib.send client (request lib h "HEAD" config) w').1))
  head_behind config client resp w w' gets sent (low, high) =
      let req = request lib h config.method config in
      let (head, answered, status, etag) =
        steady.head_as_get client req resp w gets (ap (λ x. x.0) sent) in
      let behind = steady.get_is_safe client req (request lib h "HEAD" config) w gets in
      let there : w' ≡ (lib.send client req w).1 = ap (λ x. x.1) (sym sent) in
      (
        head,
        rw status (low, high),
        etag,
        λ i. (
          (ap (λ v. (lib.send client (request lib h "HEAD" config) v).0) there ∙ behind ∙ answered)
              i,
          (lib.send client (request lib h "HEAD" config) w').1,
        ),
      )

  -- For settings with the method GET, or none: if nothing but the program's requests changes the
  -- secrets and the served content, where servers answer a HEAD with the status and the ETag of a GET
  -- in its place, and a fetch returns data, then the check behind it succeeds, and gives the ETag of those data.
  pub get_last_modified-generate :
      (c : GeneratorConfig) (w w' : W) (d : SourceData)
      → or_default lib (string_of (lookup "method" c.config)) "GET" ≡ "GET"
      → generate lib h c w ≡ (ok d, w')
      → (w'' : W) × (get_last_modified lib h c w' ≡ (ok d.last_modified, w''))
  unfolding get_last_modified check_with check_answer ◌>>=◌ wrap lift
  get_last_modified-generate c w w' d gets e =
      let (config, client, resp, w₁, parsed, configured, valid, sent, good, body, etag) =
        generate-ok lib h c w w' d e in
      let method = parse_config-method c.config config w w₁ parsed ∙ gets in
      let (head, fine, same, answered) = head_behind config client resp w₁ w' method sent good in
      (
        (lib.send client (request lib h "HEAD" config) w').1,
        rw
            (
              parse_config-behind c.config config client _ resp w w₁ w' parsed sent,
              configured,
              steady.head_is_valid config.url
                  (subst (λ m. lib.check_request m config.url ≡ ok tt) method valid),
              answered,
              checked_etag-ok head fine,
              same,
              etag,
            )
            refl,
      )
