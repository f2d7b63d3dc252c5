-- ===== src/Controller/Settings.antt =====
-- `createGeneratorConfig`: the settings that a generator takes from the spec.
pub mod Laws
use Prim.Native.String.{◌++◌}
use flux_externalsource_cont.Prelude.{
  String, true, Option, none, some, [], Result, ok, err, ◌==◌, if◌then◌else◌,
}
use flux_externalsource_cont.Prelude.Dict.{Dict, insert}
use flux_externalsource_cont.Api.{
  ExternalSource, HttpGeneratorSpec, SecretReference, SecretKeyReference,
}
use flux_externalsource_cont.Generator.{GeneratorConfig, Value, text, flag}

-- `if v != "" { config[key] = v }`
abbrev pub insert_unless_empty : String → String → Dict Value → Dict Value
insert_unless_empty key v config = if v == "" then config else insert key (text v) config

abbrev pub with_headers : Option SecretReference → Dict Value → Dict Value
with_headers none config = config
with_headers (some ref) config = insert_unless_empty "headersSecretName" ref.name config

abbrev pub with_ca_bundle : Option SecretKeyReference → Dict Value → Dict Value
with_ca_bundle none config = config
with_ca_bundle (some ref) config =
    if ref.name == ""
    then config
    else insert_unless_empty "caBundleSecretKey" ref.key
        (insert "caBundleSecretName" (text ref.name) config)

abbrev pub http_settings : HttpGeneratorSpec → Dict Value → Dict Value
http_settings spec config = with_ca_bundle spec.ca_bundle_secret_ref (
    with_headers spec.headers_secret_ref (
      let based = insert_unless_empty "method" spec.method (insert "url" (text spec.url) config) in
      if spec.insecure_skip_verify then insert "insecureSkipVerify" (flag true) based else based))

abbrev pub config_for : ExternalSource → Option HttpGeneratorSpec → Result String GeneratorConfig
config_for source none = err "HTTP configuration is required for HTTP generator"
config_for source (some spec) = ok (record {
  type = source.spec.generator.type;
  config = http_settings spec (insert "namespace" (text source.metadata.namespace) []);
})

unfoldable pub create_generator_config : ExternalSource → Result String GeneratorConfig
unfolding insert
create_generator_config source =
    if source.spec.generator.type == "http"
    then config_for source source.spec.generator.http
    else err ("unsupported generator type: " ++ source.spec.generator.type)
