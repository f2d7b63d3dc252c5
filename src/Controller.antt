-- ===== src/Controller.antt =====
-- internal/controller/externalsource_controller.go
pub mod Reconciler
pub mod Pass
pub mod Conditions
pub mod Errors
pub mod Retry
pub mod HookRun
pub mod Publish
pub mod Recovery
pub mod Settings
pub mod Steady
pub mod Setup
pub mod Fetch
pub mod Delete
pub mod Failure
pub mod Reconcile
