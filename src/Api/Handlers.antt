-- ===== src/Api/Handlers.antt =====
-- The endpoints of routes/*.py: each calls its service, and what that returns becomes a body.
pub mod Sensors
pub mod Actuators
pub mod Nodes
pub mod AutomationRules
pub mod Readings
pub mod Settings
pub mod FaultInjection
pub mod SensorHealth
pub mod Predictions
pub mod TrustedReadings
pub mod FaultEvents
pub mod ActuatorEvents
pub mod Auth
use trust_aware_self_healing.Store.Run.{Run}
use trust_aware_self_healing.Store.Db.{Env, State}
use trust_aware_self_healing.Api.Requests.{Request}
use trust_aware_self_healing.Api.Bodies.{Body}

module _ (env : Env) where
  open env use {floats.{F}}

  -- The router.
  unfoldable pub handle : Request F → Run (State env) (Body F)
  handle (Request.create_sensor payload) = Sensors.create_sensor env payload
  handle (Request.list_sensors sensor_type enabled) = Sensors.list_sensors env sensor_type enabled
  handle (Request.get_sensor k) = Sensors.get_sensor env k
  handle (Request.update_sensor k payload) = Sensors.update_sensor env k payload
  handle (Request.delete_sensor k) = Sensors.delete_sensor env k
  handle (Request.enable_sensor k) = Sensors.enable_sensor env k
  handle (Request.disable_sensor k) = Sensors.disable_sensor env k
  handle (Request.create_actuator payload) = Actuators.create_actuator env payload
  handle (Request.list_actuators actuator_type enabled) =
      Actuators.list_actuators env actuator_type enabled
  handle (Request.get_actuator k) = Actuators.get_actuator env k
  handle (Request.update_actuator k payload) = Actuators.update_actuator env k payload
  handle (Request.delete_actuator k) = Actuators.delete_actuator env k
  handle (Request.enable_actuator k) = Actuators.enable_actuator env k
  handle (Request.disable_actuator k) = Actuators.disable_actuator env k
  handle (Request.send_command k command) = Actuators.send_command env k command
  handle (Request.create_node payload) = Nodes.create_node env payload
  handle (Request.list_nodes enabled) = Nodes.list_nodes env enabled
  handle (Request.get_node k) = Nodes.get_node env k
  handle (Request.update_node k payload) = Nodes.update_node env k payload
  handle (Request.delete_node k) = Nodes.delete_node env k
  handle (Request.node_heartbeat k ip_address) = Nodes.node_heartbeat env k ip_address
  handle (Request.get_pending_commands k) = Nodes.get_pending_commands env k
  handle (Request.acknowledge_command k command_id) = Nodes.acknowledge_command env k command_id
  handle (Request.create_rule payload) = AutomationRules.create_rule env payload
  handle (Request.list_rules sensor_id actuator_id enabled) =
      AutomationRules.list_rules env sensor_id actuator_id enabled
  handle (Request.get_rule k) = AutomationRules.get_rule env k
  handle (Request.update_rule k payload) = AutomationRules.update_rule env k payload
  handle (Request.delete_rule k) = AutomationRules.delete_rule env k
  handle (Request.create_reading payload) = Readings.create_reading env payload
  handle (Request.list_readings k limit) = Readings.list_readings env k limit
  handle (Request.get_latest_reading k) = Readings.get_latest_reading env k
  handle Request.get_settings = Settings.get_settings env
  handle (Request.update_settings payload) = Settings.update_settings env payload
  handle (Request.inject_fault draw k fault_type offset) =
      FaultInjection.inject_fault env draw k fault_type offset
  handle (Request.list_sensor_health limit) = SensorHealth.list_sensor_health env limit
  handle (Request.get_sensor_health k) = SensorHealth.get_sensor_health env k
  handle (Request.list_predictions k limit) = Predictions.list_predictions env k limit
  handle (Request.get_latest_prediction k) = Predictions.get_latest_prediction env k
  handle (Request.list_trusted_readings k limit) = TrustedReadings.list_trusted_readings env k limit
  handle (Request.get_latest_trusted_reading k) = TrustedReadings.get_latest_trusted_reading env k
  handle (Request.list_fault_events k limit) = FaultEvents.list_fault_events env k limit
  handle (Request.get_latest_fault_event k) = FaultEvents.get_latest_fault_event env k
  handle (Request.list_actuator_events k limit) = ActuatorEvents.list_actuator_events env k limit
  handle (Request.get_latest_actuator_event k) = ActuatorEvents.get_latest_actuator_event env k
  handle (Request.register salt payload) = Auth.register env salt payload
  handle (Request.login email password) = Auth.login env email password
  handle (Request.google_login id_token) = Auth.google_login env id_token
  handle (Request.me authorization) = Auth.me env authorization
  handle (Request.forgot_password raw_token email) = Auth.forgot_password env raw_token email
  handle (Request.reset_password salt raw_token new_password) =
      Auth.reset_password env salt raw_token new_password
