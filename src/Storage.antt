-- ===== src/Storage.antt =====
-- internal/storage: the interface of a storage backend.
pub mod Memory
pub mod Pvc
pub mod S3
use flux_externalsource_cont.Prelude.{String, List}
use flux_externalsource_cont.Prelude.Actions.{Action}
use flux_externalsource_cont.Generator.{Bytes}

pub record StorageBackend (W : Type 0) : Type 0 where
  pub store : (key : String) (bytes : Bytes) → Action W String
  pub list : (prefix : String) → Action W (List String)
  pub delete : (key : String) → Action W (Unit {0})
  pub get_url : (key : String) → W → String
  pub retrieve : (key : String) → Action W Bytes
