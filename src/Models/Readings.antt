-- ===== src/Models/Readings.antt =====
-- models/reading.py, models/prediction.py, models/trusted_reading.py and models/fault_event.py: the
-- documents that one reading leaves behind; and models/fault_injection.py.
use trust_aware_self_healing.Shared.{ℕ, String, Bool, Option}
use trust_aware_self_healing.Models.Sensors.{SensorStatus}

pub record SensorReadingCreate (F : Type 0) : Type 0 where
  pub sensor_id : String
  pub value : F
  pub timestamp : Option ℕ

pub record Reading (F : Type 0) : Type 0 where
  pub id : ℕ
  pub sensor_id : String
  pub value : F
  pub timestamp : ℕ

pub record Prediction (F : Type 0) : Type 0 where
  pub id : ℕ
  pub sensor_id : String
  pub reading_id : ℕ
  pub value : F
  pub timestamp : ℕ
  pub anomaly_score : F
  pub is_fault : Bool
  pub model_version : ℕ
  pub created_at : ℕ

pub data Source : Type 0 where
  raw virtual : Source

pub record TrustedReading (F : Type 0) : Type 0 where
  pub id : ℕ
  pub sensor_id : String
  pub reading_id : ℕ
  pub raw_value : F
  pub trusted_value : F
  pub source : Source
  pub status_at_prediction : SensorStatus
  pub timestamp : ℕ
  pub created_at : ℕ

pub record FaultEvent (F : Type 0) : Type 0 where
  pub id : ℕ
  pub sensor_id : String
  pub previous_status : SensorStatus
  pub new_status : SensorStatus
  pub trust_score : F
  pub trigger_reading_id : ℕ
  pub timestamp : ℕ
  pub created_at : ℕ

pub data FaultType : Type 0 where
  spike sudden_offset stuck frozen drift missing communication : FaultType
