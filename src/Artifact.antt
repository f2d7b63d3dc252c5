-- ===== src/Artifact.antt =====
-- internal/artifact: a packaged artifact and the interface of the manager.
pub mod Manager
pub mod Server
use flux_externalsource_cont.Prelude.{String}
use flux_externalsource_cont.Prelude.Actions.{Action}
use flux_externalsource_cont.Prelude.Dict.{Dict}
use flux_externalsource_cont.Generator.{Bytes}

pub record Artifact : Type 0 where
  pub bytes : Bytes
  pub path : String
  pub revision : String
  pub metadata : Dict String

pub record ArtifactManager (W : Type 0) : Type 0 where
  pub package_data : Bytes → String → Action W Artifact
  pub store : Artifact → String → Action W String
  pub cleanup : String → String → Action W (Unit {0})
