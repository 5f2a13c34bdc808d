-- ===== src/Models/Actuators.antt =====
-- models/actuator.py and models/actuator_event.py.
use trust_aware_self_healing.Shared.{ℕ, String, Bool, true, false, Option}

pub data ActuatorType : Type 0 where
  fan led buzzer pump relay motor light valve servo custom : ActuatorType

pub data ActuatorMode : Type 0 where
  auto manual : ActuatorMode

pub data ActuatorState : Type 0 where
  on off : ActuatorState

pub data ActuatorCommand : Type 0 where
  on off auto : ActuatorCommand

abbrev pub mode_eq : ActuatorMode → ActuatorMode → Bool
mode_eq ActuatorMode.auto ActuatorMode.auto = true
mode_eq ActuatorMode.manual ActuatorMode.manual = true
mode_eq _ _ = false

abbrev pub state_eq : ActuatorState → ActuatorState → Bool
state_eq ActuatorState.on ActuatorState.on = true
state_eq ActuatorState.off ActuatorState.off = true
state_eq _ _ = false

-- The command whose string is that of the state.
abbrev pub command_of : ActuatorState → ActuatorCommand
command_of ActuatorState.on = ActuatorCommand.on
command_of ActuatorState.off = ActuatorCommand.off

pub record Actuator : Type 0 where
  pub actuator_id : String
  pub name : String
  pub actuator_type : ActuatorType
  pub location : String
  pub node_id : Option String
  pub mode : ActuatorMode
  pub enabled : Bool
  pub state : ActuatorState
  pub last_command : Option ActuatorCommand
  pub controlling_sensor : Option String
  pub created_at : ℕ
  pub updated_at : ℕ

-- The text of `reason`: a manual command, the return to AUTO, or a rule with its sensor and value.
pub data Reason (F : Type 0) : Type 0 where
  switched_to_auto : Reason F
  manual_command : ActuatorCommand → Reason F
  automation_rule : String → String → F → Reason F

pub record ActuatorEvent (F : Type 0) : Type 0 where
  pub id : ℕ
  pub actuator_id : String
  pub command : ActuatorCommand
  pub previous_state : ActuatorState
  pub new_state : ActuatorState
  pub mode : ActuatorMode
  pub reason : Reason F
  pub sensor_id : Option String
  pub trusted_value : Option F
  pub timestamp : ℕ

-- The strings of the enumeration, which a query compares.
abbrev pub actuator_type_value : ActuatorType → String
actuator_type_value fan = "FAN"
actuator_type_value led = "LED"
actuator_type_value buzzer = "BUZZER"
actuator_type_value pump = "PUMP"
actuator_type_value relay = "RELAY"
actuator_type_value motor = "MOTOR"
actuator_type_value ActuatorType.light = "LIGHT"
actuator_type_value valve = "VALVE"
actuator_type_value servo = "SERVO"
actuator_type_value ActuatorType.custom = "CUSTOM"

pub record ActuatorCreate : Type 0 where
  pub actuator_id : String
  pub name : String
  pub actuator_type : ActuatorType
  pub location : String
  pub node_id : Option String
  pub mode : ActuatorMode
  pub enabled : Bool

pub record ActuatorUpdate : Type 0 where
  pub name : Option String
  pub actuator_type : Option ActuatorType
  pub location : Option String
  pub node_id : Option String
  pub mode : Option ActuatorMode
  pub enabled : Option Bool
