-- ===== src/Controller/Conditions.antt =====
-- The conditions of an ExternalSource: `setCondition` to `getConditionMessage`.
pub mod Laws
use flux_externalsource_cont.Prelude.{
  String, Bool, true, false, Option, none, some, ok, ◌∷◌, if◌then◌else◌,
}
use flux_externalsource_cont.Prelude.Actions.{◌>>◌, ◌>>=◌}
use flux_externalsource_cont.Api.{
  Condition, ConditionStatus, condition_true, condition_false, condition_unknown,
}
use flux_externalsource_cont.Controller.Reconciler.{Reconciler}
use flux_externalsource_cont.Controller.Pass.{Pass, Act, update_status}

abbrev pub ready_condition : String
ready_condition = "Ready"

abbrev pub fetching_condition : String
fetching_condition = "Fetching"

abbrev pub executing_hooks_condition : String
executing_hooks_condition = "ExecutingHooks"

abbrev pub storing_condition : String
storing_condition = "Storing"

abbrev pub stalled_condition : String
stalled_condition = "Stalled"

abbrev pub succeeded_reason : String
succeeded_reason = "Succeeded"

abbrev pub failed_reason : String
failed_reason = "Failed"

abbrev pub progressing_reason : String
progressing_reason = "Progressing"

abbrev pub suspended_reason : String
suspended_reason = "Suspended"

-- `==` of two statuses
abbrev pub same_status : ConditionStatus → ConditionStatus → Bool
same_status condition_true condition_true = true
same_status condition_false condition_false = true
same_status condition_unknown condition_unknown = true
same_status _ _ = false

module _ (r : Reconciler) where
  unfoldable pub set_condition :
      (condition_type : String) (status : ConditionStatus) (reason message : String)
      → Act r (Unit {0})
  unfolding update_status
  set_condition condition_type status reason message s =
      let condition : Condition = record {
        type = condition_type;
        status = status;
        reason = reason;
        message = message;
        last_transition_time = r.now s.world;
        observed_generation = s.source.metadata.generation;
      } in
      update_status r
        (λ st. record st { conditions = r.set_status_condition condition st.conditions }) s

  unfoldable pub remove_condition : String → Act r (Unit {0})
  unfolding update_status
  remove_condition condition_type =
      update_status r
        (λ st. record st { conditions = r.remove_status_condition condition_type st.conditions })

  unfoldable pub set_ready_condition : ConditionStatus → String → String → Act r (Unit {0})
  unfolding set_condition
  set_ready_condition = set_condition ready_condition

  unfoldable pub set_progress_condition : String → Bool → String → String → Act r (Unit {0})
  unfolding set_condition
  set_progress_condition condition_type in_progress =
      set_condition condition_type (if in_progress then condition_true else condition_false)

  unfoldable pub clear_progress_conditions : Act r (Unit {0})
  unfolding remove_condition ◌>>=◌
  clear_progress_conditions = do
    remove_condition fetching_condition
    remove_condition executing_hooks_condition
    remove_condition storing_condition

  unfoldable pub has_condition : Pass r → String → ConditionStatus → Bool
  has_condition s condition_type status =
      elim (r.find_status_condition condition_type s.source.status.conditions) [
        | none ↦ false
        | some c ↦ same_status c.status status
      ]

  unfoldable pub get_condition_message : Pass r → String → String
  get_condition_message s condition_type =
      elim (r.find_status_condition condition_type s.source.status.conditions) [
        | none ↦ ""
        | some c ↦ c.message
      ]
