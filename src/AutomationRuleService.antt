-- ===== src/AutomationRuleService.antt =====
-- services/automation_rule_service.py: the rules, which must name a sensor and an actuator that exist.
pub mod References
use trust_aware_self_healing.Shared.{
  ℕ, Bool, ◌&&◌, ◌||◌, Option, none, some, List, String, str_eq, leb, is_some, or_else,
  set_if_given,
}
use trust_aware_self_healing.Models.{AutomationRule, AutomationRuleCreate, AutomationRuleUpdate}
use trust_aware_self_healing.Store.Run.{Run, pure, ◌>>=◌, ◌>>◌}
use trust_aware_self_healing.Store.Db.{Env, State, Table, sensors, actuators, automation_rules}
use trust_aware_self_healing.Store.Driver.{now_utc, find, insert_one, delete_one}
use trust_aware_self_healing.Listing.{field_is}
use trust_aware_self_healing.Updates.{flag_is, update_fields}
use trust_aware_self_healing.Validators.{ensure_unique, ensure_exists}
use trust_aware_self_healing.TrustEngine.{is_sensor}
use trust_aware_self_healing.ActuatorControl.{is_actuator}

abbrev pub is_rule : {F : Type 0} → String → AutomationRule F → Bool
is_rule rule_id d = str_eq d.rule_id rule_id

abbrev pub new_rule : {F : Type 0} → AutomationRuleCreate F → ℕ → AutomationRule F
new_rule payload now = record {
  rule_id = payload.rule_id;
  name = payload.name;
  sensor_id = payload.sensor_id;
  actuator_id = payload.actuator_id;
  condition = payload.condition;
  threshold = payload.threshold;
  action = payload.action;
  reset_threshold = payload.reset_threshold;
  reset_action = payload.reset_action;
  enabled = payload.enabled;
  created_at = now;
  updated_at = now;
}

abbrev pub has_changes : {F : Type 0} → AutomationRuleUpdate F → Bool
has_changes u =
    is_some u.name
    || is_some u.sensor_id
    || is_some u.actuator_id
    || is_some u.condition
    || is_some u.threshold
    || is_some u.action
    || is_some u.reset_threshold
    || is_some u.reset_action
    || is_some u.enabled

abbrev pub apply_changes :
    {F : Type 0} → AutomationRuleUpdate F → ℕ → AutomationRule F → AutomationRule F
apply_changes u now d = record d {
  name = or_else u.name d.name;
  sensor_id = or_else u.sensor_id d.sensor_id;
  actuator_id = or_else u.actuator_id d.actuator_id;
  condition = or_else u.condition d.condition;
  threshold = or_else u.threshold d.threshold;
  action = or_else u.action d.action;
  reset_threshold = set_if_given u.reset_threshold d.reset_threshold;
  reset_action = set_if_given u.reset_action d.reset_action;
  enabled = or_else u.enabled d.enabled;
  updated_at = now;
}

module _ (env : Env) where
  open env use {floats.{F}}

  unfoldable pub create_rule : AutomationRuleCreate F → Run (State env) (AutomationRule F)
  create_rule payload = do
    ensure_unique env (automation_rules env) (is_rule payload.rule_id)
    ensure_exists env (sensors env) (is_sensor env payload.sensor_id)
    ensure_exists env (actuators env) (is_actuator payload.actuator_id)
    now ← now_utc env
    insert_one env (automation_rules env) (λ _. new_rule payload now)
    pure (new_rule payload now)

  unfoldable pub list_rules :
      Option String → Option String → Option Bool → Run (State env) (List (AutomationRule F))
  list_rules sensor_id actuator_id enabled =
      find env (automation_rules env)
        (λ d.
          field_is sensor_id d.sensor_id
          && field_is actuator_id d.actuator_id
          && flag_is enabled d.enabled)
        (λ d e. leb d.created_at e.created_at)

  unfoldable pub get_rule : String → Run (State env) (AutomationRule F)
  get_rule rule_id = ensure_exists env (automation_rules env) (is_rule rule_id)

  -- The check of a reference that is being changed.
  unfoldable pub ensure_if_given :
      {D : Type 0} → Table env D → (String → D → Bool) → Option String → Run (State env) (Unit {0})
  ensure_if_given t is none = pure tt
  ensure_if_given t is (some key) = do ensure_exists env t (is key); pure tt

  unfoldable pub update_rule : String → AutomationRuleUpdate F → Run (State env) (AutomationRule F)
  update_rule rule_id payload = do
    ensure_exists env (automation_rules env) (is_rule rule_id)
    ensure_if_given (sensors env) (is_sensor env) payload.sensor_id
    ensure_if_given (actuators env) is_actuator payload.actuator_id
    update_fields env (automation_rules env) (is_rule rule_id) (has_changes payload)
        (apply_changes payload)

  unfoldable pub delete_rule : String → Run (State env) (Unit {0})
  delete_rule rule_id = do
    ensure_exists env (automation_rules env) (is_rule rule_id)
    delete_one env (automation_rules env) (is_rule rule_id)
