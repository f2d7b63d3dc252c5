-- ===== src/Controller/Pass.antt =====
-- The state of one reconciliation: the object that the pointer `externalSource` stands for, and
-- the world. A method that takes the pointer is an action on it.
pub mod Frame
use flux_externalsource_cont.Prelude.{Option, none, some, Result, ok}
use flux_externalsource_cont.Prelude.Actions.{Action}
use flux_externalsource_cont.Api.{ExternalSource, ExternalSourceStatus}
use flux_externalsource_cont.Metrics.{MetricsRecorder}
use flux_externalsource_cont.Controller.Reconciler.{Reconciler}

pub record Pass (r : Reconciler) : Type 0 where
  pub source : ExternalSource
  pub world : r.World

abbrev pub Act : Reconciler → Type 0 → Type 0
Act r A = Action (Pass r) A

module _ (r : Reconciler) where
  -- An operation of a component, on the world alone.
  unfoldable pub on_world {ℓ} : {A : Type ℓ} → Action r.World A → Action (Pass r) A
  on_world m s = let (x, w) = m s.world in (x, record s { world = w })

  -- `if r.MetricsRecorder != nil { r.MetricsRecorder.… }`
  abbrev pub record_on :
      Option (MetricsRecorder r.World)
      → (MetricsRecorder r.World → r.World → r.World)
      → r.World
      → r.World
  record_on none f w = w
  record_on (some m) f w = f m w

  unfoldable pub recorded : (MetricsRecorder r.World → r.World → r.World) → Act r (Unit {0})
  recorded f s = (ok tt, record s { world = record_on r.metrics_recorder f s.world })

  -- a write to a field of the status
  unfoldable pub update_status : (ExternalSourceStatus → ExternalSourceStatus) → Act r (Unit {0})
  update_status f s =
      (ok tt, record s { source = record (s.source) { status = f (s.source.status) } })

  unfoldable pub change_source : (ExternalSource → ExternalSource) → Act r (Unit {0})
  change_source f s = (ok tt, record s { source = f s.source })
