-- ===== src/TrustEngine.antt =====
-- services/trust_engine.py: the running trust score of a sensor, and its status.
pub mod Scoring
pub mod Bounds
pub mod Scored
pub mod Range
pub mod Recovery
pub mod Status
pub mod Persistence
pub mod Events
use trust_aware_self_healing.Shared.{
  ℕ, Bool, true, false, Option, none, some, List, String, str_eq, if◌then◌else◌, take, leb,
}
use trust_aware_self_healing.Models.{
  SensorStatus, status_eq, Sensor, SensorHealth, Prediction, FaultEvent,
}
use trust_aware_self_healing.Store.Run.{
  Run, Result, pure, lift, attempt, or_raise, value_error, ◌>>=◌, ◌>>◌,
}
use trust_aware_self_healing.Store.Db.{Env, State, sensors, sensor_health}
use trust_aware_self_healing.Store.Driver.{now_utc, find_one, update_one, upsert_one}
use trust_aware_self_healing.Listing.{find_limited}
use trust_aware_self_healing.SettingsService.{get_settings}
use trust_aware_self_healing.SelfHealing.{record_transition_if_changed}
use Scoring.{TrustParameters, trust_parameters, snapshot, score}

-- `health_doc`: a snapshot without the `created_at` that only the stored document has.
pub record HealthDoc (F : Type 0) : Type 0 where
  pub sensor_id : String
  pub trust_score : F
  pub status : SensorStatus
  pub consecutive_faults : ℕ
  pub consecutive_healthy : ℕ
  pub last_prediction_id : ℕ
  pub last_is_fault : Bool
  pub last_anomaly_score : F
  pub last_reading_timestamp : ℕ
  pub updated_at : ℕ

-- `$set` of the snapshot, over the stored document's `created_at`.
abbrev pub stored_health : {F : Type 0} → HealthDoc F → ℕ → SensorHealth F
stored_health h created = record {
  sensor_id = h.sensor_id;
  trust_score = h.trust_score;
  status = h.status;
  consecutive_faults = h.consecutive_faults;
  consecutive_healthy = h.consecutive_healthy;
  last_prediction_id = h.last_prediction_id;
  last_is_fault = h.last_is_fault;
  last_anomaly_score = h.last_anomaly_score;
  last_reading_timestamp = h.last_reading_timestamp;
  created_at = created;
  updated_at = h.updated_at;
}

module _ (env : Env) where
  open env use {floats.{F}}

  abbrev pub is_sensor : String → Sensor F → Bool
  is_sensor sensor_id d = str_eq d.sensor_id sensor_id

  abbrev pub is_health_of : String → SensorHealth F → Bool
  is_health_of sensor_id d = str_eq d.sensor_id sensor_id

  -- The snapshot that a prediction leads to.
  abbrev pub health_after :
      TrustParameters F → Sensor F → Option (SensorHealth F) → Prediction F → ℕ → HealthDoc F
  health_after params sensor health prediction now =
      let after = score env.floats params prediction.is_fault (snapshot env.floats sensor health) in
      record {
        sensor_id = prediction.sensor_id;
        trust_score = after.trust;
        status = after.status;
        consecutive_faults = after.consecutive_faults;
        consecutive_healthy = after.consecutive_healthy;
        last_prediction_id = prediction.id;
        last_is_fault = prediction.is_fault;
        last_anomaly_score = prediction.anomaly_score;
        last_reading_timestamp = prediction.timestamp;
        updated_at = now;
      }

  abbrev pub mirror : HealthDoc F → Sensor F → Sensor F
  mirror h d = record d {
    trust_score = h.trust_score;
    status = h.status;
    updated_at = h.updated_at;
  }

  unfoldable pub try_record_fault_event :
      String → SensorStatus → SensorStatus → F → Prediction F → Run (State env) (Unit {0})
  try_record_fault_event sensor_id previous_status new_status trust_score prediction = do
    attempt (
        record_transition_if_changed env sensor_id previous_status new_status trust_score
          prediction.reading_id prediction.timestamp)
    pure tt

  unfoldable pub store_health : HealthDoc F → Run (State env) (Unit {0})
  store_health h = do
    upsert_one env (sensor_health env) (is_health_of h.sensor_id)
        (λ d. stored_health h d.created_at) (stored_health h h.updated_at)
    update_one env (sensors env) (is_sensor h.sensor_id) (mirror h)

  unfoldable pub record_change :
      SensorStatus → HealthDoc F → Prediction F → Run (State env) (Unit {0})
  record_change previous_status h prediction =
      if status_eq previous_status h.status
      then pure tt
      else try_record_fault_event h.sensor_id previous_status h.status h.trust_score prediction

  unfoldable pub update_trust : Prediction F → Run (State env) (HealthDoc F)
  update_trust prediction = do
    found ← find_one env (sensors env) (is_sensor prediction.sensor_id)
    sensor ← lift (or_raise found value_error)
    settings ← attempt (get_settings env)
    let params = trust_parameters env.floats settings
    health ← find_one env (sensor_health env) (is_health_of prediction.sensor_id)
    now ← now_utc env
    let doc = health_after params sensor health prediction now
    store_health doc
    record_change (snapshot env.floats sensor health).status doc prediction
    pure doc

  unfoldable pub get_health : String → Run (State env) (Option (SensorHealth F))
  get_health sensor_id = find_one env (sensor_health env) (is_health_of sensor_id)

  unfoldable pub list_health : ℕ → Run (State env) (List (SensorHealth F))
  list_health limit =
      find_limited env (sensor_health env) (λ d. true) (λ d e. leb e.updated_at d.updated_at) limit
