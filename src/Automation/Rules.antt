-- ===== src/Automation/Rules.antt =====
-- services/automation.py without the database: what one rule wants for a trusted value, and the
-- commands that a list of rules comes to.
use trust_aware_self_healing.Shared.{
  Bool, true, false, Option, none, some, List, [], ◌∷◌, String, str_eq, if◌then◌else◌,
}
use trust_aware_self_healing.Floats.{Floats, ltb, eqb}
use trust_aware_self_healing.Models.{
  AutomationRule, RuleCondition, RuleAction, ActuatorState, greater_than, greater_than_or_equal,
  less_than, less_than_or_equal, equal,
}
use trust_aware_self_healing.Store.Run.{Result, ok, err, value_error}

abbrev pub reverse_condition : RuleCondition → RuleCondition
reverse_condition greater_than = less_than
reverse_condition greater_than_or_equal = less_than_or_equal
reverse_condition less_than = greater_than
reverse_condition less_than_or_equal = greater_than_or_equal
reverse_condition equal = equal
reverse_condition (RuleCondition.unknown s) = RuleCondition.unknown s

abbrev pub opposite_action : RuleAction → RuleAction
opposite_action ActuatorState.on = ActuatorState.off
opposite_action ActuatorState.off = ActuatorState.on

-- One entry of `desired_by_actuator`.
pub record Command : Type 0 where
  pub actuator_id : String
  pub desired : ActuatorState
  pub rule_id : String

-- `desired_by_actuator[key] = …`: a key that is there keeps its place.
unfoldable pub set_command : Command → List Command → List Command
set_command c [] = c ∷ []
set_command c (d ∷ ds) = if str_eq d.actuator_id c.actuator_id then c ∷ ds else d ∷ set_command c ds

unfoldable pub lookup_command : String → List Command → Option Command
lookup_command k [] = none
lookup_command k (d ∷ ds) = if str_eq d.actuator_id k then some d else lookup_command k ds

module _ (fl : Floats) where
  open fl use {F, leb}

  unfoldable pub check : RuleCondition → F → F → Result Bool
  check greater_than value threshold = ok (ltb fl threshold value)
  check greater_than_or_equal value threshold = ok (leb threshold value)
  check less_than value threshold = ok (ltb fl value threshold)
  check less_than_or_equal value threshold = ok (leb value threshold)
  check equal value threshold = ok (eqb fl value threshold)
  check (RuleCondition.unknown s) value threshold = err value_error

  -- Inside the reset test: the reset action, or no change in the dead zone.
  abbrev pub after_reset : RuleAction → Result Bool → Result (Option RuleAction)
  after_reset reset_action (ok true) = ok (some reset_action)
  after_reset reset_action (ok false) = ok none
  after_reset reset_action (err e) = err e

  abbrev pub reset_or_opposite :
      RuleCondition → F → RuleAction → Option F → Option RuleAction → Result (Option RuleAction)
  reset_or_opposite condition value action (some reset_threshold) (some reset_action) =
      after_reset reset_action (check (reverse_condition condition) value reset_threshold)
  reset_or_opposite condition value action _ _ = ok (some (opposite_action action))

  abbrev pub on_check : AutomationRule F → F → Result Bool → Result (Option RuleAction)
  on_check rule value (ok true) = ok (some rule.action)
  on_check rule value (ok false) =
      reset_or_opposite rule.condition value rule.action rule.reset_threshold rule.reset_action
  on_check rule value (err e) = err e

  unfoldable pub desired_command_for_rule : AutomationRule F → F → Result (Option RuleAction)
  unfolding check
  desired_command_for_rule rule trusted_value =
      on_check rule trusted_value (check rule.condition trusted_value rule.threshold)

  -- A rule that raises, or that wants no change, leaves the commands as they are.
  abbrev pub add_desired :
      AutomationRule F → Result (Option RuleAction) → List Command → List Command
  add_desired rule (ok (some desired)) acc =
      set_command
        (record { actuator_id = rule.actuator_id; desired = desired; rule_id = rule.rule_id }) acc
  add_desired rule _ acc = acc

  unfoldable pub collect : F → List (AutomationRule F) → List Command → List Command
  collect trusted_value [] acc = acc
  collect trusted_value (rule ∷ rules) acc =
      collect trusted_value rules
        (add_desired rule (desired_command_for_rule rule trusted_value) acc)
