-- ===== src/Generator.antt =====
-- internal/generator: the interface of a source generator, and the factory of generators.
pub mod Factory
pub mod Http
use flux_externalsource_cont.Prelude.{ℕ, String, Bool, List}
use flux_externalsource_cont.Prelude.Actions.{Action}
use flux_externalsource_cont.Prelude.Dict.{Dict}

-- What `map[string]interface{}` holds here.
pub data Value : Type 0 where
  text : String → Value
  flag : Bool → Value

pub record GeneratorConfig : Type 0 where
  pub type : String
  pub config : Dict Value

abbrev pub Bytes : Type 0
Bytes = List ℕ

pub record SourceData : Type 0 where
  pub bytes : Bytes
  pub last_modified : String
  pub metadata : Dict String

-- The methods act on a world: the network, the cluster's secrets.
pub record SourceGenerator (W : Type 0) : Type 0 where
  pub generate : GeneratorConfig → Action W SourceData
  pub supports_conditional_fetch : Bool
  pub get_last_modified : GeneratorConfig → Action W String
