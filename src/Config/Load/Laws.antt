-- ===== src/Config/Load/Laws.antt =====
-- The environment has the last word.
use flux_externalsource_cont.Prelude.{
  String, ◌≡◌, refl, Bool, true, false, Option, none, some, ◌==◌, if◌then◌else◌,
}
use flux_externalsource_cont.Config.{Config}
use flux_externalsource_cont.Config.Floats.{Floats}
use flux_externalsource_cont.Config.Load.{
  Environment, set_text, set_parsed, value_or, load_from_environment, load_storage_from_env,
  load_http_from_env, load_retry_from_env, load_hooks_from_env, load_metrics_from_env,
  load_artifact_server_from_env,
}

if_twice {ℓ} :
    {A : Type ℓ} (b : Bool) (x y : A)
    → (if b then (if b then x else y) else y) ≡ (if b then x else y)
if_twice true x y = refl
if_twice false x y = refl

set_text-twice :
    (value field : String) → set_text value (set_text value field) ≡ set_text value field
set_text-twice value field = if_twice (value == "") field value

parsed_twice {ℓ} :
    {A : Type ℓ} (b : Bool) (parsed : Option A) (field : A)
    → (if b
        then (if b then field else value_or field parsed)
        else value_or (if b then field else value_or field parsed) parsed)
      ≡ (if b then field else value_or field parsed)
parsed_twice true parsed field = refl
parsed_twice false none field = refl
parsed_twice false (some value) field = refl

set_parsed-twice {ℓ} :
    {A : Type ℓ} (parse : String → Option A) (value : String) (field : A)
    → set_parsed parse value (set_parsed parse value field) ≡ set_parsed parse value field
set_parsed-twice parse value field = parsed_twice (value == "") (parse value) field

-- Loading the environment a second time changes nothing, whatever the configuration, the
-- environment and the parsers.
pub load_from_environment-twice :
    (env : Environment) (f : Floats) (c : Config f.Float)
    → load_from_environment env f (load_from_environment env f c) ≡ load_from_environment env f c
unfolding load_from_environment load_storage_from_env load_http_from_env load_retry_from_env
    load_hooks_from_env load_metrics_from_env load_artifact_server_from_env
load_from_environment-twice env f c = simp (set_text-twice, set_parsed-twice) refl
