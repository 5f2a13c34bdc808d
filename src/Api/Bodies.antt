-- ===== src/Api/Bodies.antt =====
-- The bodies of the responses of routes/*.py.
use trust_aware_self_healing.Shared.{String, Option, none, List, Bool, true, false}
use trust_aware_self_healing.Floats.{Floats}
use trust_aware_self_healing.Models.{
  Sensor, SensorHealth, Reading, Prediction, TrustedReading, FaultEvent, Actuator, ActuatorEvent,
  AutomationRule, Node, NodeCommand, SystemSettings, UserResponse, TokenResponse,
}
use trust_aware_self_healing.Api.Schemas.{
  every, sensor_response_valid, actuator_response_valid, node_response_valid, rule_response_valid,
  reading_response_valid, health_response_valid, fault_event_response_valid,
}
use trust_aware_self_healing.Store.Run.{Run, pure, ◌>>=◌}

module _ {S A B : Type 0} where
  unfoldable pub map_result : (A → B) → Run S A → Run S B
  map_result f m = m >>= λ a. pure (f a)

-- What is sent back, by its response model; `done` stands for an empty body or a fixed message.
pub data Body (F : Type 0) : Type 0 where
  one_sensor : Sensor F → Body F
  sensors : List (Sensor F) → Body F
  one_actuator : Actuator → Body F
  actuators : List Actuator → Body F
  one_node : Node → Body F
  nodes : List Node → Body F
  one_command : NodeCommand → Body F
  commands : List NodeCommand → Body F
  one_rule : AutomationRule F → Body F
  rules : List (AutomationRule F) → Body F
  one_reading : Reading F → Body F
  readings : List (Reading F) → Body F
  settings_now : SystemSettings F → Body F
  settings_after : Option (SystemSettings F) → Body F
  injected : Option (F × Reading F) → Body F
  one_health : SensorHealth F → Body F
  healths : List (SensorHealth F) → Body F
  one_prediction : Prediction F → Body F
  predictions : List (Prediction F) → Body F
  one_trusted_reading : TrustedReading F → Body F
  trusted_readings : List (TrustedReading F) → Body F
  one_fault_event : FaultEvent F → Body F
  fault_events : List (FaultEvent F) → Body F
  one_actuator_event : ActuatorEvent F → Body F
  actuator_events : List (ActuatorEvent F) → Body F
  signed_in : TokenResponse → Body F
  current_user : UserResponse → Body F
  reset_token : Option String → Body F
  done : Body F

-- The body meets the response model of its endpoint; the other models have no check beyond the types.
unfoldable pub is_presentable : (fl : Floats) → Body fl.F → Bool
is_presentable fl (Body.one_sensor d) = sensor_response_valid fl d
is_presentable fl (Body.sensors ds) = every (sensor_response_valid fl) ds
is_presentable fl (Body.one_actuator d) = actuator_response_valid d
is_presentable fl (Body.actuators ds) = every actuator_response_valid ds
is_presentable fl (Body.one_node d) = node_response_valid d
is_presentable fl (Body.nodes ds) = every node_response_valid ds
is_presentable fl (Body.one_rule d) = rule_response_valid d
is_presentable fl (Body.rules ds) = every rule_response_valid ds
is_presentable fl (Body.one_reading d) = reading_response_valid d
is_presentable fl (Body.readings ds) = every reading_response_valid ds
is_presentable fl (Body.settings_after none) = false
is_presentable fl (Body.one_health h) = health_response_valid fl h
is_presentable fl (Body.healths hs) = every (health_response_valid fl) hs
is_presentable fl (Body.one_fault_event e) = fault_event_response_valid fl e
is_presentable fl (Body.fault_events es) = every (fault_event_response_valid fl) es
is_presentable fl _ = true
