-- ===== src/Tests/Configuration.antt =====
-- The theorems on the sources of the configuration.
use flux_externalsource_cont.Prelude.{
  String, ◌≡◌, refl, ◌≢◌, false, none, some, [], ◌∷◌, ok, err, ◌==◌, if◌then◌else◌, arith, eq_iff,
}
use flux_externalsource_cont.Prelude.Dict.{Dict, lookup}
use flux_externalsource_cont.Prelude.Int.{pos}
use flux_externalsource_cont.Config.{Config}
use flux_externalsource_cont.Config.Load.{Environment, load_from_environment}
use flux_externalsource_cont.Config.Validate.{default_config}
use flux_externalsource_cont.Config.Validate.Laws.{IsValid}
use flux_externalsource_cont.Config.ConfigMap.{Unmarshal, load_values}
use flux_externalsource_cont.Config.ConfigMap.Laws.{
  as_environment, load_values-load_from_environment,
}
use flux_externalsource_cont.Config.Manager.{Manager, new_manager, load_config}
use flux_externalsource_cont.Config.Manager.Laws.{load_config-IsValid}
use flux_externalsource_cont.Tests.{toy_floats}

abbrev environment : Environment
environment = record {
  getenv = λ key. if key == "STORAGE_BACKEND" then "pvc" else "";
  parse_bool = λ s. if s == "false" then some false else none;
  atoi = λ s. if s == "3" then some (pos 3) else none;
  parse_duration = λ s. none;
}

abbrev values : Dict String
values = ("storage.backend", "s3") ∷ ("retry.maxAttempts", "3") ∷ ("metrics.enabled", "false") ∷ []

values-set : (key : String) → lookup key values ≢ some ""
unfolding lookup
values-set key e = ground (arith, eq_iff "s3" "", eq_iff "3" "", eq_iff "false" "")

load_values-load_from_environment_example :
    load_values environment values toy_floats (default_config toy_floats)
    ≡ load_from_environment
        (as_environment environment values)
        toy_floats
        (default_config toy_floats)
load_values-load_from_environment_example =
    load_values-load_from_environment environment values values-set toy_floats
      (default_config toy_floats)

abbrev unmarshal : Unmarshal toy_floats.Float
unmarshal json c = (err "bad json", c)

abbrev config_manager : Manager
config_manager = new_manager environment (some (λ namespace name. ok values))

abbrev loaded : Config toy_floats.Float
loaded =
    load_from_environment environment toy_floats
      (load_values environment values toy_floats (default_config toy_floats))

loads : load_config environment toy_floats unmarshal config_manager ≡ ok loaded
unfolding load_config new_manager lookup
loads = refl

load_config-IsValid_example :
    IsValid toy_floats loaded × (load_from_environment environment toy_floats loaded ≡ loaded)
load_config-IsValid_example =
    load_config-IsValid environment toy_floats unmarshal config_manager loaded loads
