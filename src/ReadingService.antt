-- ===== src/ReadingService.antt =====
-- services/reading_service.py: the ingestion of a reading, and the chain of best-effort stages that
-- follows it.
pub mod Contract
pub mod Stages
pub mod RawReadings
pub mod ManualOverride
pub mod TrustRange
use trust_aware_self_healing.Shared.{ℕ, Bool, Option, none, some, List, String, str_eq, or_else}
use trust_aware_self_healing.Models.{SensorReadingCreate, Reading, Prediction, TrustedReading}
use trust_aware_self_healing.Store.Run.{
  Run, pure, lift, attempt, or_raise, on_success, not_found, ◌>>=◌, ◌>>◌,
}
use trust_aware_self_healing.Store.Db.{Env, State, sensors, sensor_readings}
use trust_aware_self_healing.Store.Driver.{now_utc, insert_one}
use trust_aware_self_healing.Listing.{newest_first, field_is, find_limited, find_newest}
use trust_aware_self_healing.Validators.{ensure_exists}
use trust_aware_self_healing.FaultDetection.{score_reading}
use trust_aware_self_healing.TrustEngine.{HealthDoc, update_trust}
use trust_aware_self_healing.VirtualSensor.{compute_trusted_value}
use trust_aware_self_healing.Automation.{evaluate_and_apply}

module _ (env : Env) where
  open env use {floats.{F}}

  unfoldable pub try_evaluate_automation : TrustedReading F → Run (State env) (Unit {0})
  try_evaluate_automation trusted_reading = do
    attempt (evaluate_and_apply env trusted_reading)
    pure tt

  unfoldable pub try_compute_trusted_value : Reading F → HealthDoc F → Run (State env) (Unit {0})
  try_compute_trusted_value reading health = do
    trusted_reading ← attempt (compute_trusted_value env reading health.status)
    on_success trusted_reading try_evaluate_automation

  unfoldable pub try_update_trust : Reading F → Prediction F → Run (State env) (Unit {0})
  try_update_trust reading prediction = do
    health ← attempt (update_trust env prediction)
    on_success health (try_compute_trusted_value reading)

  unfoldable pub try_score_reading : Reading F → Run (State env) (Unit {0})
  try_score_reading reading = do
    prediction ← attempt (score_reading env reading)
    on_success prediction (try_update_trust reading)

  abbrev pub reading_doc : SensorReadingCreate F → ℕ → ℕ → Reading F
  reading_doc payload now i = record {
    id = i;
    sensor_id = payload.sensor_id;
    value = payload.value;
    timestamp = or_else payload.timestamp now;
  }

  -- The part of `create_reading` up to the stored reading.
  unfoldable pub store_reading : SensorReadingCreate F → Run (State env) (Reading F)
  store_reading payload = do
    ensure_exists env (sensors env) (λ d. str_eq d.sensor_id payload.sensor_id)
    now ← now_utc env
    inserted ← insert_one env (sensor_readings env) (reading_doc payload now)
    pure (reading_doc payload now inserted)

  unfoldable pub create_reading : SensorReadingCreate F → Run (State env) (Reading F)
  create_reading payload = do
    reading ← store_reading payload
    try_score_reading reading
    pure reading

  abbrev reading_order : Reading F → Reading F → Bool
  reading_order d e = newest_first d.timestamp d.id e.timestamp e.id

  unfoldable pub list_readings : Option String → ℕ → Run (State env) (List (Reading F))
  list_readings sensor_id limit =
      find_limited env (sensor_readings env) (λ d. field_is sensor_id d.sensor_id) reading_order
        limit

  unfoldable pub get_latest_reading : String → Run (State env) (Reading F)
  get_latest_reading sensor_id = do
    ensure_exists env (sensors env) (λ d. str_eq d.sensor_id sensor_id)
    doc ← find_newest env (sensor_readings env) (λ d. str_eq d.sensor_id sensor_id) reading_order
    lift (or_raise doc not_found)
