-- ===== src/Examples/Queues.antt =====
-- The node commands and the rules on concrete inputs.
use trust_aware_self_healing.Shared.{true, ◌≡◌, refl, none, some, []}
use trust_aware_self_healing.Shared.Int.{ℤ}
use trust_aware_self_healing.Mongo.Listed.{listed-IsMongo}
use trust_aware_self_healing.Models.{
  ActuatorMode, ActuatorState, ActuatorCommand, AutomationRuleCreate, greater_than,
}
use trust_aware_self_healing.Store.Run.{ok, err, not_found}
use trust_aware_self_healing.Store.Db.{State}
use trust_aware_self_healing.NodeCommands.{enqueue_command, acknowledge_command}
use trust_aware_self_healing.NodeCommands.Lifecycle.{acknowledged, acknowledge-enqueue}
use trust_aware_self_healing.AutomationRuleService.{create_rule}
use trust_aware_self_healing.AutomationRuleService.References.{create_rule-answers}
use trust_aware_self_healing.Examples.Database.{env, units, database}

abbrev quiet : State env
quiet = database ActuatorMode.auto []

-- Another node acknowledges the command.
acknowledge-enqueue_example :
    (acknowledge_command env "ESP32_01"
      (some 0)
      (enqueue_command env "ESP32_01" "FAN_01" ActuatorCommand.on quiet).1).0
    ≡ ok (acknowledged env listed-IsMongo "ESP32_01" "FAN_01" ActuatorCommand.on 1000 0)
acknowledge-enqueue_example =
    acknowledge-enqueue env listed-IsMongo "ESP32_01" "FAN_01" "ESP32_01" ActuatorCommand.on quiet
      refl (λ p h. refl)

-- A rule for an actuator that does not exist.
abbrev dangling : AutomationRuleCreate ℤ
dangling = record {
  rule_id = "RULE_009";
  name = "Pump on heat";
  sensor_id = "TEMP_01";
  actuator_id = "PUMP_01";
  condition = greater_than;
  threshold = units 30;
  action = ActuatorState.on;
  reset_threshold = none;
  reset_action = none;
  enabled = true;
}

create_rule-answers_example : (create_rule env dangling quiet).0 ≡ err not_found
create_rule-answers_example = create_rule-answers env dangling quiet refl
