-- ===== src/Hooks.antt =====
-- internal/hooks/interface.go
pub mod Whitelist
pub mod Protocol
pub mod Executor
pub mod Sidecar
pub mod Remote
use flux_externalsource_cont.Prelude.{String, Bool, List}
use flux_externalsource_cont.Prelude.Actions.{Action}
use flux_externalsource_cont.Api.{HookSpec}
use flux_externalsource_cont.Generator.{Bytes}

pub record HookExecutor (W : Type 0) : Type 0 where
  pub execute : Bytes → HookSpec → Action W Bytes

pub record WhitelistManager : Type 0 where
  pub is_allowed : String → List String → Bool
