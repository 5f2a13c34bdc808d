-- ===== src/Models/Sensors.antt =====
-- models/sensor.py and models/sensor_health.py.
use trust_aware_self_healing.Shared.{ℕ, String, Bool, true, false, Option}

pub data SensorType : Type 0 where
  temperature humidity light gas smoke pressure air_quality : SensorType
  soil_moisture vibration water_level motion current voltage custom : SensorType

pub data SensorStatus : Type 0 where
  healthy faulty recovering offline : SensorStatus

-- `==` of two status strings.
abbrev pub status_eq : SensorStatus → SensorStatus → Bool
status_eq healthy healthy = true
status_eq faulty faulty = true
status_eq recovering recovering = true
status_eq offline offline = true
status_eq _ _ = false

pub record Sensor (F : Type 0) : Type 0 where
  pub sensor_id : String
  pub name : String
  pub sensor_type : SensorType
  pub unit : String
  pub location : String
  pub node_id : Option String
  pub normal_min : F
  pub normal_max : F
  pub sampling_interval_seconds : ℕ
  pub enabled : Bool
  pub status : SensorStatus
  pub trust_score : F
  pub created_at : ℕ
  pub updated_at : ℕ

pub record SensorHealth (F : Type 0) : Type 0 where
  pub sensor_id : String
  pub trust_score : F
  pub status : SensorStatus
  pub consecutive_faults : ℕ
  pub consecutive_healthy : ℕ
  pub last_prediction_id : ℕ
  pub last_is_fault : Bool
  pub last_anomaly_score : F
  pub last_reading_timestamp : ℕ
  pub created_at : ℕ
  pub updated_at : ℕ

-- The strings of the enumeration, which a query compares.
abbrev pub sensor_type_value : SensorType → String
sensor_type_value temperature = "TEMPERATURE"
sensor_type_value humidity = "HUMIDITY"
sensor_type_value SensorType.light = "LIGHT"
sensor_type_value gas = "GAS"
sensor_type_value smoke = "SMOKE"
sensor_type_value pressure = "PRESSURE"
sensor_type_value air_quality = "AIR_QUALITY"
sensor_type_value soil_moisture = "SOIL_MOISTURE"
sensor_type_value vibration = "VIBRATION"
sensor_type_value water_level = "WATER_LEVEL"
sensor_type_value motion = "MOTION"
sensor_type_value current = "CURRENT"
sensor_type_value voltage = "VOLTAGE"
sensor_type_value SensorType.custom = "CUSTOM"

pub record SensorCreate (F : Type 0) : Type 0 where
  pub sensor_id : String
  pub name : String
  pub sensor_type : SensorType
  pub unit : String
  pub location : String
  pub node_id : Option String
  pub normal_min : F
  pub normal_max : F
  pub sampling_interval_seconds : ℕ
  pub enabled : Bool

pub record SensorUpdate (F : Type 0) : Type 0 where
  pub name : Option String
  pub sensor_type : Option SensorType
  pub unit : Option String
  pub location : Option String
  pub node_id : Option String
  pub normal_min : Option F
  pub normal_max : Option F
  pub sampling_interval_seconds : Option ℕ
  pub enabled : Option Bool
