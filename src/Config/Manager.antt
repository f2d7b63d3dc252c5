-- ===== src/Config/Manager.antt =====
-- internal/config/manager.go: the sources of the configuration, put together.
pub mod Laws
use Prim.Native.String.{◌++◌}
use flux_externalsource_cont.Prelude.{
  String, Option, none, some, Result, ok, err, map_err, ◌==◌, if◌then◌else◌,
}
use flux_externalsource_cont.Config.{Config}
use flux_externalsource_cont.Config.Floats.{Floats}
use flux_externalsource_cont.Config.Load.{Environment, load_from_environment}
use flux_externalsource_cont.Config.Validate.{validate, default_config}
use flux_externalsource_cont.Config.ConfigMap.{
  Client, Unmarshal, new_config_map_loader, load_config_map,
}

pub record Manager : Type 0 where
  pub client : Option Client
  pub config_map_name : String
  pub config_map_namespace : String

abbrev pub get_env_or_default : Environment → (key default_value : String) → String
get_env_or_default env key default_value =
    if env.getenv key == "" then default_value else env.getenv key

unfoldable pub new_manager : Environment → Option Client → Manager
new_manager env k8s_client = record {
  client = k8s_client;
  config_map_name = get_env_or_default env "CONFIG_MAP_NAME" "externalsource-controller-config";
  config_map_namespace =
      get_env_or_default env "CONFIG_MAP_NAMESPACE" "externalsource-controller-system";
}

unfoldable pub set_config_map_source : (namespace name : String) → Manager → Manager
set_config_map_source namespace name m = record {
  client = m.client;
  config_map_name = name;
  config_map_namespace = namespace;
}

module _ (env : Environment) (f : Floats) (unmarshal : Unmarshal f.Float) where
  -- An error is only logged, and what was written before it stays.
  abbrev pub from_config_map :
      Option Client → (namespace name : String) → Config f.Float → Config f.Float
  from_config_map none namespace name c = c
  from_config_map (some client) namespace name c =
      (load_config_map env f unmarshal (new_config_map_loader client namespace name) c).1

  abbrev pub checked : Config f.Float → Result String (Unit {0}) → Result String (Config f.Float)
  checked c (ok _) = ok c
  checked c (err e) = err ("configuration validation failed: " ++ e)

  unfoldable pub load_config : Manager → Result String (Config f.Float)
  unfolding new_config_map_loader load_config_map load_from_environment validate default_config
  load_config m =
      let given =
        from_config_map m.client m.config_map_namespace m.config_map_name (default_config f) in
      let c = load_from_environment env f given in checked c (validate f c)
