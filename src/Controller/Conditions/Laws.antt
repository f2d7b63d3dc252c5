-- ===== src/Controller/Conditions/Laws.antt =====
-- The conditions that a reader finds after the controller's writes.
use mathlib.Core.Option
use flux_externalsource_cont.Prelude.{
  String, ◌≡◌, Bool, false, Option, none, some, List, ◌==◌, if◌then◌else◌, arith,
}
use flux_externalsource_cont.Prelude.Int.{ℤ}
use flux_externalsource_cont.Api.{Condition, ConditionStatus}
use flux_externalsource_cont.Controller.Reconciler.{Reconciler}
use flux_externalsource_cont.Controller.Pass.{Pass}
use flux_externalsource_cont.Controller.Conditions.{
  set_condition, remove_condition, has_condition, same_status, clear_progress_conditions,
  fetching_condition, executing_hooks_condition, storing_condition,
}

-- A condition but for its transition time, which apimeta may keep from an older one.
pub record Shown : Type 0 where
  pub status : ConditionStatus
  pub reason : String
  pub message : String
  pub observed_generation : ℤ

abbrev pub shown : Condition → Shown
shown c = record {
  status = c.status;
  reason = c.reason;
  message = c.message;
  observed_generation = c.observed_generation;
}

-- The documented behaviour of apimeta's SetStatusCondition, RemoveStatusCondition and
-- FindStatusCondition.
pub record ConditionLaws (r : Reconciler) : Type 0 where
  pub find-set :
      (t : String) (c : Condition) (cs : List Condition)
      → Option.map shown (r.find_status_condition t (r.set_status_condition c cs))
        ≡ (if c.type == t then some (shown c) else Option.map shown (r.find_status_condition t cs))
  pub find-remove :
      (t u : String) (cs : List Condition)
      → Option.map shown (r.find_status_condition t (r.remove_status_condition u cs))
        ≡ (if u == t then none else Option.map shown (r.find_status_condition t cs))

-- what a reader of the status sees of one condition
abbrev pub condition_shown : (r : Reconciler) → Pass r → String → Option Shown
condition_shown r s t = Option.map shown (r.find_status_condition t s.source.status.conditions)

abbrev pub has_status : Option Shown → ConditionStatus → Bool
has_status none status = false
has_status (some c) status = same_status c.status status

module _ (r : Reconciler) where
  pub has_condition-shown :
      (s : Pass r) (t : String) (status : ConditionStatus)
      → has_condition r s t status ≡ has_status (condition_shown r s t) status
  unfolding has_condition
  has_condition-shown s t status = ground arith

  module _ (laws : ConditionLaws r) where
    pub shown-set_condition :
        (s : Pass r) (t u : String) (status : ConditionStatus) (reason message : String)
        → condition_shown r (set_condition r u status reason message s).1 t ≡ (
            if u == t
            then some (record {
              status = status;
              reason = reason;
              message = message;
              observed_generation = s.source.metadata.generation;
            })
            else condition_shown r s t)
    unfolding set_condition
    shown-set_condition s t u status reason message = laws.find-set t _ _

    pub shown-remove_condition :
        (s : Pass r) (t u : String)
        → condition_shown r (remove_condition r u s).1 t
          ≡ (if u == t then none else condition_shown r s t)
    unfolding remove_condition
    shown-remove_condition s t u = laws.find-remove t u _

    pub shown-clear_progress_conditions :
        (s : Pass r) (t : String)
        → condition_shown r (clear_progress_conditions r s).1 t ≡ (
            if storing_condition == t
            then none
            else if executing_hooks_condition == t
            then none
            else if fetching_condition == t
            then none
            else condition_shown r s t)
    unfolding clear_progress_conditions
    shown-clear_progress_conditions s t = simp laws.find-remove
