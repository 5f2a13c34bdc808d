-- ===== src/Api/Requests.antt =====
-- The endpoints of routes/*.py, a constructor each, with their bodies, parameters and, where the
-- handler draws at random, the draw.
use trust_aware_self_healing.Shared.{ℕ, String, Bool, true, Option}
use trust_aware_self_healing.Floats.{Floats}
use trust_aware_self_healing.Models.{
  SensorReadingCreate, SensorCreate, SensorUpdate, SettingsUpdate, ActuatorCreate, ActuatorUpdate,
  ActuatorCommand, NodeCreate, NodeUpdate, AutomationRuleCreate, AutomationRuleUpdate, FaultType,
  UserRegister, SensorType, ActuatorType,
}
use trust_aware_self_healing.FaultInjection.{Draw}
use trust_aware_self_healing.Api.Schemas.{
  has_length, limit_valid, sensor_create_valid, sensor_update_valid, settings_update_valid,
  actuator_create_valid, actuator_update_valid, node_create_valid, node_update_valid,
  rule_create_valid, rule_update_valid, reading_create_valid, user_register_valid,
}

pub data Request (F : Type 0) : Type 0 where
  -- routes/sensors.py
  create_sensor : SensorCreate F → Request F
  list_sensors : Option SensorType → Option Bool → Request F
  get_sensor : String → Request F
  update_sensor : String → SensorUpdate F → Request F
  delete_sensor : String → Request F
  enable_sensor disable_sensor : String → Request F
  -- routes/actuators.py
  create_actuator : ActuatorCreate → Request F
  list_actuators : Option ActuatorType → Option Bool → Request F
  get_actuator : String → Request F
  update_actuator : String → ActuatorUpdate → Request F
  delete_actuator : String → Request F
  enable_actuator disable_actuator : String → Request F
  send_command : String → ActuatorCommand → Request F
  -- routes/nodes.py
  create_node : NodeCreate → Request F
  list_nodes : Option Bool → Request F
  get_node : String → Request F
  update_node : String → NodeUpdate → Request F
  delete_node : String → Request F
  node_heartbeat : String → Option String → Request F
  get_pending_commands : String → Request F
  acknowledge_command : String → String → Request F
  -- routes/automation_rules.py
  create_rule : AutomationRuleCreate F → Request F
  list_rules : Option String → Option String → Option Bool → Request F
  get_rule : String → Request F
  update_rule : String → AutomationRuleUpdate F → Request F
  delete_rule : String → Request F
  -- routes/readings.py
  create_reading : SensorReadingCreate F → Request F
  list_readings : Option String → ℕ → Request F
  get_latest_reading : String → Request F
  -- routes/settings.py
  get_settings : Request F
  update_settings : SettingsUpdate F → Request F
  -- routes/fault_injection.py
  inject_fault : Draw F → String → FaultType → Option F → Request F
  -- routes/sensor_health.py
  list_sensor_health : ℕ → Request F
  get_sensor_health : String → Request F
  -- routes/predictions.py, trusted_readings.py, fault_events.py, actuator_events.py
  list_predictions : Option String → ℕ → Request F
  get_latest_prediction : String → Request F
  list_trusted_readings : Option String → ℕ → Request F
  get_latest_trusted_reading : String → Request F
  list_fault_events : Option String → ℕ → Request F
  get_latest_fault_event : String → Request F
  list_actuator_events : Option String → ℕ → Request F
  get_latest_actuator_event : String → Request F
  -- routes/auth.py: a salt of bcrypt, or a token of `secrets`, comes first
  register : String → UserRegister → Request F
  login : String → String → Request F
  google_login : String → Request F
  me : Option String → Request F
  forgot_password : String → String → Request F
  reset_password : String → String → String → Request F

-- The request passes the checks before the handler.
unfoldable pub is_valid : (fl : Floats) → Request fl.F → Bool
is_valid fl (create_sensor payload) = sensor_create_valid fl payload
is_valid fl (update_sensor k payload) = sensor_update_valid fl payload
is_valid fl (create_actuator payload) = actuator_create_valid payload
is_valid fl (update_actuator k payload) = actuator_update_valid payload
is_valid fl (create_node payload) = node_create_valid payload
is_valid fl (update_node k payload) = node_update_valid payload
is_valid fl (create_rule payload) = rule_create_valid payload
is_valid fl (update_rule k payload) = rule_update_valid payload
is_valid fl (create_reading payload) = reading_create_valid payload
is_valid fl (update_settings payload) = settings_update_valid fl payload
is_valid fl (list_readings k limit) = limit_valid limit
is_valid fl (list_predictions k limit) = limit_valid limit
is_valid fl (list_trusted_readings k limit) = limit_valid limit
is_valid fl (list_fault_events k limit) = limit_valid limit
is_valid fl (list_actuator_events k limit) = limit_valid limit
is_valid fl (register salt payload) = user_register_valid payload
is_valid fl (reset_password salt token new_password) = has_length 8 128 new_password
is_valid fl _ = true
