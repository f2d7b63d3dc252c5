-- ===== src/Controller/Settings/Laws.antt =====
-- The settings that the controller writes, as the HTTP generator reads them.
use flux_externalsource_cont.Prelude.{
  String, ◌≡◌, refl, sym, ap, fun_ext, ◌∙◌, true, false, Bool-cases, inl, inr, Option, none, some,
  [], ok, ◌==◌, if◌then◌else◌, eq_iff, eq_refl,
}
use flux_externalsource_cont.Prelude.Dict.{Dict, lookup, insert, lookup-insert}
use flux_externalsource_cont.Prelude.Actions.{Action, pure, ◌>>=◌}
use flux_externalsource_cont.Api.{
  ExternalSource, HttpGeneratorSpec, SecretReference, SecretKeyReference,
}
use flux_externalsource_cont.Generator.{GeneratorConfig, Value, text, flag}
use flux_externalsource_cont.Generator.Http.{
  HttpLibrary, HttpConfig, string_of, bool_of, headers_from, ca_bundle_from, or_default,
  parse_config, parse_rest,
}
use flux_externalsource_cont.Controller.Settings.{
  insert_unless_empty, with_headers, with_ca_bundle, http_settings, create_generator_config,
}

abbrev name_of : Option SecretReference → String
name_of none = ""
name_of (some ref) = ref.name

abbrev ca_name_of : Option SecretKeyReference → String
ca_name_of none = ""
ca_name_of (some ref) = ref.name

abbrev ca_key_of : Option SecretKeyReference → String
ca_key_of none = ""
ca_key_of (some ref) = ref.key

-- what the spec asks for, without the settings between
unfoldable pub described :
    {W : Type 0} → HttpLibrary W → (namespace : String) → HttpGeneratorSpec → Action W HttpConfig
unfolding ◌>>=◌ pure
described lib namespace spec = do
  headers ← headers_from lib (or_default lib namespace "default") (name_of spec.headers_secret_ref)
  ca_bundle ←
      ca_bundle_from lib (or_default lib namespace "default") (ca_name_of spec.ca_bundle_secret_ref)
        (ca_key_of spec.ca_bundle_secret_ref)
  pure (record {
    url = spec.url;
    method = or_default lib spec.method "GET";
    headers = headers;
    ca_bundle = ca_bundle;
    insecure_skip_verify = spec.insecure_skip_verify;
  })

module _ (key read v : String) (d : Dict Value) (other : (key == read) ≡ false) where
  unless_empty-other : lookup read (insert_unless_empty key v d) ≡ lookup read d
  unless_empty-other = elim (Bool-cases (v == "")) [
    | inl e ↦ rw e refl
    | inr n ↦ rw (n, lookup-insert, other) refl
  ]

unless_empty-own :
    (key v : String) (d : Dict Value)
    → lookup key d ≡ none
    → string_of (lookup key (insert_unless_empty key v d)) ≡ v
unless_empty-own key v d absent = elim (Bool-cases (v == "")) [
  | inl e ↦ rw (e, absent) (sym ((eq_iff v "").0 e))
  | inr n ↦ rw (n, lookup-insert, eq_refl key) refl
]

headers-other :
    (ref : Option SecretReference) (read : String) (d : Dict Value)
    → ("headersSecretName" == read) ≡ false
    → lookup read (with_headers ref d) ≡ lookup read d
headers-other none read d other = refl
headers-other (some ref) read d other = unless_empty-other "headersSecretName" read ref.name d other

headers-own :
    (ref : Option SecretReference) (d : Dict Value)
    → lookup "headersSecretName" d ≡ none
    → string_of (lookup "headersSecretName" (with_headers ref d)) ≡ name_of ref
headers-own none d absent = rw absent refl
headers-own (some ref) d absent = unless_empty-own "headersSecretName" ref.name d absent

ca_bundle-other :
    (ref : Option SecretKeyReference) (read : String) (d : Dict Value)
    → ("caBundleSecretName" == read) ≡ false
    → ("caBundleSecretKey" == read) ≡ false
    → lookup read (with_ca_bundle ref d) ≡ lookup read d
ca_bundle-other none read d name_other key_other = refl
ca_bundle-other (some ref) read d name_other key_other = elim (Bool-cases (ref.name == "")) [
  | inl e ↦ rw e refl
  | inr n ↦
      rw
        (
          n,
          unless_empty-other "caBundleSecretKey" read ref.key
              (insert "caBundleSecretName" (text ref.name) d) key_other,
          lookup-insert,
          name_other,
        )
        refl
]

ca_bundle-name :
    (ref : Option SecretKeyReference) (d : Dict Value)
    → lookup "caBundleSecretName" d ≡ none
    → string_of (lookup "caBundleSecretName" (with_ca_bundle ref d)) ≡ ca_name_of ref
ca_bundle-name none d absent = rw absent refl
ca_bundle-name (some ref) d absent = elim (Bool-cases (ref.name == "")) [
  | inl e ↦ rw (e, absent) (sym ((eq_iff ref.name "").0 e))
  | inr n ↦
      rw
        (
          n,
          unless_empty-other "caBundleSecretKey" "caBundleSecretName" ref.key
              (insert "caBundleSecretName" (text ref.name) d) refl,
          lookup-insert,
        )
        refl
]

-- the key counts only beside a name
ca_bundle-key :
    {W : Type 0} (lib : HttpLibrary W) (namespace : String) (ref : Option SecretKeyReference)
    (d : Dict Value) (w : W)
    → lookup "caBundleSecretKey" d ≡ none
    → ca_bundle_from lib namespace
        (ca_name_of ref)
        (string_of (lookup "caBundleSecretKey" (with_ca_bundle ref d)))
        w
      ≡ ca_bundle_from lib namespace (ca_name_of ref) (ca_key_of ref) w
unfolding ca_bundle_from
ca_bundle-key lib namespace none d w absent = refl
ca_bundle-key lib namespace (some ref) d w absent = elim (Bool-cases (ref.name == "")) [
  | inl e ↦ rw e refl
  | inr n ↦
      rw
        (
          n,
          unless_empty-own "caBundleSecretKey" ref.key
              (insert "caBundleSecretName" (text ref.name) d) (rw (lookup-insert, absent) refl),
        )
        refl
]

module _ (namespace : String) (spec : HttpGeneratorSpec) where
  abbrev start : Dict Value
  start = insert "url" (text spec.url) (insert "namespace" (text namespace) [])

  abbrev with_method : Dict Value
  with_method = insert_unless_empty "method" spec.method start

  abbrev with_flag : Dict Value
  with_flag =
      if spec.insecure_skip_verify
      then insert "insecureSkipVerify" (flag true) with_method
      else with_method

  abbrev settings : Dict Value
  settings = http_settings spec (insert "namespace" (text namespace) [])

  flag-other :
      (read : String)
      → ("insecureSkipVerify" == read) ≡ false
      → lookup read with_flag ≡ lookup read with_method
  flag-other read other = elim (Bool-cases spec.insecure_skip_verify) [
    | inl e ↦ rw (e, lookup-insert, other) refl
    | inr n ↦ rw n refl
  ]

  flag-own :
      lookup "insecureSkipVerify" with_method ≡ none
      → bool_of (lookup "insecureSkipVerify" with_flag) ≡ spec.insecure_skip_verify
  flag-own absent = elim (Bool-cases spec.insecure_skip_verify) [
    | inl e ↦ rw (e, lookup-insert) refl
    | inr n ↦ rw (n, absent) refl
  ]

  -- a key that no reference to a secret writes
  settings-plain :
      (read : String)
      → ("headersSecretName" == read) ≡ false
      → ("caBundleSecretName" == read) ≡ false
      → ("caBundleSecretKey" == read) ≡ false
      → lookup read settings ≡ lookup read with_flag
  settings-plain read h n k =
      ca_bundle-other spec.ca_bundle_secret_ref read
        (with_headers spec.headers_secret_ref with_flag) n k
      ∙ headers-other spec.headers_secret_ref read with_flag h

  with_flag-unwritten :
      (read : String)
      → ("insecureSkipVerify" == read) ≡ false
      → ("method" == read) ≡ false
      → lookup read with_flag ≡ lookup read start
  with_flag-unwritten read i m =
      flag-other read i ∙ unless_empty-other "method" read spec.method start m

  url_setting : lookup "url" settings ≡ some (text spec.url)
  unfolding lookup insert
  url_setting = settings-plain "url" refl refl refl ∙ with_flag-unwritten "url" refl refl

  namespace_setting : string_of (lookup "namespace" settings) ≡ namespace
  unfolding lookup insert
  namespace_setting =
      ap string_of
        (settings-plain "namespace" refl refl refl ∙ with_flag-unwritten "namespace" refl refl)

  method_setting : string_of (lookup "method" settings) ≡ spec.method
  unfolding lookup insert
  method_setting =
      ap string_of (settings-plain "method" refl refl refl ∙ flag-other "method" refl)
      ∙ unless_empty-own "method" spec.method start refl

  insecure_setting : bool_of (lookup "insecureSkipVerify" settings) ≡ spec.insecure_skip_verify
  unfolding lookup insert
  insecure_setting =
      ap bool_of (settings-plain "insecureSkipVerify" refl refl refl)
      ∙ flag-own (unless_empty-other "method" "insecureSkipVerify" spec.method start refl)

  headers_setting :
      string_of (lookup "headersSecretName" settings) ≡ name_of spec.headers_secret_ref
  unfolding lookup insert
  headers_setting =
      ap string_of (
        ca_bundle-other spec.ca_bundle_secret_ref "headersSecretName"
          (with_headers spec.headers_secret_ref with_flag) refl refl)
      ∙ headers-own spec.headers_secret_ref with_flag
          (with_flag-unwritten "headersSecretName" refl refl)

  -- what is there before the reference to the CA bundle
  before_ca_bundle :
      (read : String)
      → ("headersSecretName" == read) ≡ false
      → ("insecureSkipVerify" == read) ≡ false
      → ("method" == read) ≡ false
      → lookup read (with_headers spec.headers_secret_ref with_flag) ≡ lookup read start
  before_ca_bundle read h i m =
      headers-other spec.headers_secret_ref read with_flag h ∙ with_flag-unwritten read i m

  ca_name_setting :
      string_of (lookup "caBundleSecretName" settings) ≡ ca_name_of spec.ca_bundle_secret_ref
  unfolding lookup insert
  ca_name_setting =
      ca_bundle-name spec.ca_bundle_secret_ref _
        (before_ca_bundle "caBundleSecretName" refl refl refl)

  ca_key_setting :
      {W : Type 0} (lib : HttpLibrary W) (at : String) (w : W)
      → ca_bundle_from lib at
          (ca_name_of spec.ca_bundle_secret_ref)
          (string_of (lookup "caBundleSecretKey" settings))
          w
        ≡ ca_bundle_from lib at
            (ca_name_of spec.ca_bundle_secret_ref)
            (ca_key_of spec.ca_bundle_secret_ref)
            w
  unfolding lookup insert
  ca_key_setting lib at w =
      ca_bundle-key lib at spec.ca_bundle_secret_ref _ w
        (before_ca_bundle "caBundleSecretKey" refl refl refl)

  parse_settings :
      {W : Type 0} (lib : HttpLibrary W) (w : W)
      → parse_config lib settings w ≡ described lib namespace spec w
  unfolding parse_config parse_rest described ◌>>=◌
  parse_settings lib w =
      let at = or_default lib namespace "default" in
      rw
        (
          url_setting, namespace_setting, headers_setting, ca_name_setting, method_setting,
          insecure_setting,
        )
        (ap
          (λ ca.
            (headers_from lib at (name_of spec.headers_secret_ref) >>= λ headers.
            ca >>= λ ca_bundle. pure (record {
              url = spec.url;
              method = or_default lib spec.method "GET";
              headers = headers;
              ca_bundle = ca_bundle;
              insecure_skip_verify = spec.insecure_skip_verify;
            }))
              w)
          (fun_ext (ca_key_setting lib at)))

-- For a source with an HTTP generator, the controller makes settings that the generator reads
-- back as the spec means them: with the spec's URL and flag, its method or GET, the headers and
-- the CA bundle of the secrets that it names in the source's namespace, or no headers and no
-- bundle if it names none. This holds for the errors and the changes of the reads too.
pub parse_config-create_generator_config :
    {W : Type 0} (lib : HttpLibrary W) (source : ExternalSource) (spec : HttpGeneratorSpec) (w : W)
    → source.spec.generator.type ≡ "http"
    → source.spec.generator.http ≡ some spec
    → (c : GeneratorConfig) × (create_generator_config source ≡ ok c)
      × (parse_config lib c.config w ≡ described lib source.metadata.namespace spec w)
unfolding create_generator_config
parse_config-create_generator_config lib source spec w http given = (
  record { type = "http"; config = settings source.metadata.namespace spec },
  rw (http, given) refl,
  parse_settings source.metadata.namespace spec lib w,
)
