-- ===== src/Examples/Control.antt =====
-- The rules and the settings on concrete values.
use trust_aware_self_healing.Shared.{◌≡◌, refl, none, some, [], ◌∷◌}
use trust_aware_self_healing.Shared.Int.{ℤ}
use trust_aware_self_healing.Floats.Fixed.{fixed, fixed-IsOrdered}
use trust_aware_self_healing.Models.{
  AutomationRule, ActuatorMode, ActuatorState, SettingsUpdate, less_than_or_equal,
}
use trust_aware_self_healing.Store.Run.{ok}
use trust_aware_self_healing.Automation.Rules.{lookup_command, desired_command_for_rule, collect}
use trust_aware_self_healing.Automation.Hysteresis.{zones_upward, settle_all, settle_all-stays}
use trust_aware_self_healing.Automation.LastWins.{last_wish, Distinct, lookup-collect}
use trust_aware_self_healing.Store.Db.{State}
use trust_aware_self_healing.Examples.Database.{env, units, database, rule_001}

zones_upward_example : desired_command_for_rule fixed rule_001 (units 27) ≡ ok none
zones_upward_example =
    zones_upward fixed fixed-IsOrdered rule_001 (units 26) ActuatorState.off refl refl (units 27)
      refl refl

-- ON at 20 and below, OFF at 22 and above.
abbrev heating : AutomationRule ℤ
heating = record rule_001 {
  rule_id = "RULE_002";
  condition = less_than_or_equal;
  threshold = units 20;
  reset_threshold = some (units 22);
}

settle_all-stays_example :
    settle_all fixed fixed-IsOrdered rule_001 (units 27 ∷ units 30 ∷ units 27 ∷ []) ActuatorState.on
    ≡ ActuatorState.on
settle_all-stays_example =
    settle_all-stays fixed fixed-IsOrdered rule_001 (units 26) ActuatorState.off
      (units 27 ∷ units 30 ∷ units 27 ∷ []) refl refl refl (refl, (refl, (refl, tt)))

abbrev plain : AutomationRule ℤ
plain = record rule_001 { rule_id = "RULE_003"; reset_threshold = none }

lookup-collect_example :
    (lookup_command "FAN_01" (collect fixed (units 27) (rule_001 ∷ plain ∷ []) [])
      ≡ last_wish fixed "FAN_01" (units 27) (rule_001 ∷ plain ∷ []))
    × Distinct (collect fixed (units 27) (rule_001 ∷ plain ∷ []) [])
lookup-collect_example = lookup-collect fixed "FAN_01" (units 27) (rule_001 ∷ plain ∷ [])

-- A change of the penalty alone.
abbrev milder : SettingsUpdate ℤ
milder = record {
  fault_penalty = some (units 10);
  recovery_gain = none;
  faulty_threshold = none;
  healthy_threshold = none;
  trust_max = none;
  trust_min = none;
}

abbrev quiet : State env
quiet = database ActuatorMode.auto []
