-- ===== src/Examples/Database.antt =====
-- A small database: a temperature sensor, a fan on a node, a rule between them, and two models. The
-- detector calls a reading a fault that lies outside the sensor's range, and the regressor predicts
-- the middle of the range.
use trust_aware_self_healing.Shared.{
  ℕ, Bool, true, Option, none, some, List, [], ◌∷◌, if◌then◌else◌,
}
use trust_aware_self_healing.Shared.Int.{ℤ, pos, leb_ℤ}
use trust_aware_self_healing.Floats.Fixed.{fixed}
use trust_aware_self_healing.Mongo.Listed.{listed}
use trust_aware_self_healing.Security.Plain.{plain}
use trust_aware_self_healing.Models.{
  temperature, healthy, Sensor, fan, ActuatorMode, ActuatorState, Actuator, AutomationRule,
  greater_than_or_equal, Node, NodeStatus, SensorReadingCreate, Reading, Prediction,
}
use trust_aware_self_healing.Store.Db.{
  Env, State, Detector, Regressor, ModelSlot, inlier, outlier, Label,
}

abbrev pub env : Env
env = record { floats = fixed; mongo = listed; security = plain }

-- n units
abbrev pub units : ℕ → ℤ
units n = env.floats.literal n 0

abbrev pub temp_01 : Sensor ℤ
temp_01 = record {
  sensor_id = "TEMP_01";
  name = "Room Temperature";
  sensor_type = temperature;
  unit = "C";
  location = "Lab 1";
  node_id = some "ESP32_01";
  normal_min = units 15;
  normal_max = units 40;
  sampling_interval_seconds = 5;
  enabled = true;
  status = healthy;
  trust_score = units 100;
  created_at = 0;
  updated_at = 0;
}

abbrev pub fan_01 : ActuatorMode → Actuator
fan_01 mode = record {
  actuator_id = "FAN_01";
  name = "Cooling Fan";
  actuator_type = fan;
  location = "Lab 1";
  node_id = some "ESP32_01";
  mode = mode;
  enabled = true;
  state = ActuatorState.off;
  last_command = none;
  controlling_sensor = none;
  created_at = 0;
  updated_at = 0;
}

-- ON at 28 and above, OFF at 26 and below.
abbrev pub rule_001 : AutomationRule ℤ
rule_001 = record {
  rule_id = "RULE_001";
  name = "Fan on high temp";
  sensor_id = "TEMP_01";
  actuator_id = "FAN_01";
  condition = greater_than_or_equal;
  threshold = units 28;
  action = ActuatorState.on;
  reset_threshold = some (units 26);
  reset_action = some ActuatorState.off;
  enabled = true;
  created_at = 0;
  updated_at = 0;
}

abbrev pub esp32_01 : Node
esp32_01 = record {
  node_id = "ESP32_01";
  name = "Lab 1 Node";
  location = "Lab 1";
  ip_address = some "192.168.1.50";
  enabled = true;
  status = NodeStatus.unknown;
  last_seen = none;
  created_at = 0;
  updated_at = 0;
}

-- By the first feature, the deviation from the range.
abbrev pub label_of : List ℤ → Option Label
label_of [] = none
label_of (deviation ∷ rest) = some (if leb_ℤ deviation (pos 0) then inlier else outlier)

abbrev pub range_detector : Detector ℤ
range_detector = record { decision_function = λ features. some (pos 0); predict = label_of }

abbrev pub middle_regressor : Regressor ℤ
middle_regressor = record { predict = λ features. some (pos 500) }

abbrev pub trained : {M : Type 0} → M → ModelSlot M
trained model = record { file = some (record { mtime = 1; content = some model }); cache = none }

-- The outages are those of the driver calls to come.
abbrev pub database : ActuatorMode → List Bool → State env
database mode outages = record {
  sensors = temp_01 ∷ [];
  sensor_health = [];
  sensor_readings = [];
  predictions = [];
  trusted_readings = [];
  fault_events = [];
  actuators = fan_01 mode ∷ [];
  actuator_events = [];
  automation_rules = rule_001 ∷ [];
  nodes = esp32_01 ∷ [];
  node_commands = [];
  system_settings = [];
  users = [];
  password_reset_tokens = [];
  next_id = 0;
  clock = 1000;
  outages = outages;
  detector = trained range_detector;
  regressor = trained middle_regressor;
  pushes = [];
}

abbrev pub reading_of : ℕ → SensorReadingCreate ℤ
reading_of value = record { sensor_id = "TEMP_01"; value = units value; timestamp = none }

abbrev pub stored_reading : ℕ → Reading ℤ
stored_reading value = record {
  id = 0;
  sensor_id = "TEMP_01";
  value = units value;
  timestamp = 1000;
}

abbrev pub fault_prediction : Prediction ℤ
fault_prediction = record {
  id = 1;
  sensor_id = "TEMP_01";
  reading_id = 0;
  value = units 99;
  timestamp = 1000;
  anomaly_score = pos 0;
  is_fault = true;
  model_version = 1;
  created_at = 1000;
}
