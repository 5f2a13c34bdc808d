-- ===== src/Models/Rules.antt =====
-- models/automation_rule.py. `RuleAction` has the strings of `ActuatorState`, and the engine compares
-- the one with the other.
use trust_aware_self_healing.Shared.{ℕ, String, Bool, Option}
use trust_aware_self_healing.Models.Actuators.{ActuatorState}

-- The strings of the enumeration, and any other string that a stored rule may hold.
pub data RuleCondition : Type 0 where
  greater_than greater_than_or_equal less_than less_than_or_equal equal : RuleCondition
  unknown : String → RuleCondition

abbrev pub RuleAction : Type 0
RuleAction = ActuatorState

pub record AutomationRule (F : Type 0) : Type 0 where
  pub rule_id : String
  pub name : String
  pub sensor_id : String
  pub actuator_id : String
  pub condition : RuleCondition
  pub threshold : F
  pub action : RuleAction
  pub reset_threshold : Option F
  pub reset_action : Option RuleAction
  pub enabled : Bool
  pub created_at : ℕ
  pub updated_at : ℕ

pub record AutomationRuleCreate (F : Type 0) : Type 0 where
  pub rule_id : String
  pub name : String
  pub sensor_id : String
  pub actuator_id : String
  pub condition : RuleCondition
  pub threshold : F
  pub action : RuleAction
  pub reset_threshold : Option F
  pub reset_action : Option RuleAction
  pub enabled : Bool

pub record AutomationRuleUpdate (F : Type 0) : Type 0 where
  pub name : Option String
  pub sensor_id : Option String
  pub actuator_id : Option String
  pub condition : Option RuleCondition
  pub threshold : Option F
  pub action : Option RuleAction
  pub reset_threshold : Option F
  pub reset_action : Option RuleAction
  pub enabled : Option Bool
