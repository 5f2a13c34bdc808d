-- ===== src/AutomationRuleService/References.antt =====
-- services/automation_rule_service.py: the sensor and the actuator that a new rule names.
use trust_aware_self_healing.Shared.{◌≡◌, refl, ℕ, Option, none, some, inl, inr, Option-cases, []}
use trust_aware_self_healing.Models.{AutomationRule, AutomationRuleCreate, Sensor, Actuator}
use trust_aware_self_healing.Store.Run.{Result, ok, err, not_found, conflict, ◌>>=◌}
use trust_aware_self_healing.Store.Db.{Env, State}
use trust_aware_self_healing.Store.Driver.{now_utc, find_one, insert_one}
use trust_aware_self_healing.Store.Quiet.{driver-IsQuiet}
use trust_aware_self_healing.Validators.{ensure_unique, ensure_exists}
use trust_aware_self_healing.TrustEngine.{is_sensor}
use trust_aware_self_healing.ActuatorControl.{is_actuator}
use trust_aware_self_healing.AutomationRuleService.{is_rule, new_rule, create_rule}

module _ (env : Env) where
  open env use {floats.{F}}

  -- The answer, by what is found under the three ids.
  abbrev pub answer_for :
      AutomationRuleCreate F
      → ℕ
      → Option (AutomationRule F)
      → Option (Sensor F)
      → Option Actuator
      → Result (AutomationRule F)
  answer_for payload now (some rule) sensor actuator = err conflict
  answer_for payload now none none actuator = err not_found
  answer_for payload now none (some sensor) none = err not_found
  answer_for payload now none (some sensor) (some actuator) = ok (new_rule payload now)

  -- While no driver call fails, creating a rule answers 409 if its id is taken, else 404 if its sensor
  -- or its actuator does not exist, and else the rule.
  pub create_rule-answers :
      (payload : AutomationRuleCreate F) (s : State env)
      → s.outages ≡ []
      → (create_rule env payload s).0
        ≡ answer_for payload s.clock
            (env.mongo.find_one (is_rule payload.rule_id) s.automation_rules)
            (env.mongo.find_one (is_sensor env payload.sensor_id) s.sensors)
            (env.mongo.find_one (is_actuator payload.actuator_id) s.actuators)
  unfolding create_rule ensure_unique ensure_exists find_one insert_one now_utc ◌>>=◌
  create_rule-answers payload s quiet =
      elim (Option-cases (env.mongo.find_one (is_rule payload.rule_id) s.automation_rules)) [
        | inl free ↦
            elim (Option-cases (env.mongo.find_one (is_sensor env payload.sensor_id) s.sensors)) [
              | inl no_sensor ↦
                  rw (driver-IsQuiet env _ s quiet, free, driver-IsQuiet env _ s quiet, no_sensor)
                    refl
              | inr (sensor, known) ↦
                  elim (Option-cases
                    (env.mongo.find_one (is_actuator payload.actuator_id) s.actuators)) [
                      | inl no_actuator ↦
                          rw
                            (
                              driver-IsQuiet env _ s quiet,
                              free,
                              driver-IsQuiet env _ s quiet,
                              known,
                              driver-IsQuiet env _ s quiet,
                              no_actuator,
                            )
                            refl
                      | inr (actuator, found) ↦
                          rw
                            (
                              driver-IsQuiet env _ s quiet,
                              free,
                              driver-IsQuiet env _ s quiet,
                              known,
                              driver-IsQuiet env _ s quiet,
                              found,
                              driver-IsQuiet env _ s quiet,
                            )
                            refl
                    ]
            ]
        | inr (rule, taken) ↦ rw (driver-IsQuiet env _ s quiet, taken) refl
      ]
