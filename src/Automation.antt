-- ===== src/Automation.antt =====
-- services/automation.py: the rules of a sensor, evaluated on one trusted value, and their outcome
-- applied to the actuators.
pub mod Rules
pub mod Hysteresis
pub mod LastWins
use trust_aware_self_healing.Shared.{
  ℕ, Bool, true, false, ◌&&◌, Option, none, some, List, [], ◌∷◌, String, str_eq, leb, if◌then◌else◌,
}
use trust_aware_self_healing.Models.{AutomationRule, ActuatorState, Actuator, TrustedReading}
use trust_aware_self_healing.Store.Run.{Run, Result, pure, attempt, ◌>>=◌, ◌>>◌}
use trust_aware_self_healing.Store.Db.{Env, State, automation_rules}
use trust_aware_self_healing.Store.Driver.{find}
use trust_aware_self_healing.ActuatorControl.{apply_automated_state}
use Rules.{Command, collect}

module _ (env : Env) where
  open env use {floats.{F}}

  -- The loop over `desired_by_actuator.items()`; an exception is logged and dropped.
  unfoldable pub apply_all : String → F → List Command → Run (State env) (Unit {0})
  apply_all sensor_id trusted_value [] = pure tt
  apply_all sensor_id trusted_value (c ∷ rest) = do
    attempt (apply_automated_state env c.actuator_id c.desired sensor_id trusted_value c.rule_id)
    apply_all sensor_id trusted_value rest

  unfoldable pub evaluate_and_apply : TrustedReading F → Run (State env) (Unit {0})
  evaluate_and_apply reading = do
    rules ←
        find env (automation_rules env) (λ d. str_eq d.sensor_id reading.sensor_id && d.enabled)
          (λ d e. leb d.created_at e.created_at)
    apply_all reading.sensor_id reading.trusted_value
        (collect env.floats reading.trusted_value rules [])
