-- ===== src/Api/Frame/Sensors.antt =====
-- routes/sensors.py, settings.py, readings.py and fault_injection.py: their requests keep what looks at
-- no sensor, score, setting or fault event, and is kept by the insertion of a reading.
use trust_aware_self_healing.Shared.{String, Bool}
use trust_aware_self_healing.Models.{SensorCreate, SensorUpdate, SettingsUpdate, Prediction}
use trust_aware_self_healing.Store.Db.{
  Env, State, sensors, sensor_health, system_settings, fault_events,
}
use trust_aware_self_healing.Store.Keeps.{Keeps}
use trust_aware_self_healing.Store.Frame.{IsFree, keeps}
use trust_aware_self_healing.Validators.{ensure_unique, ensure_exists}
use trust_aware_self_healing.Updates.{update_fields, write_fields, read_back}
use trust_aware_self_healing.SensorService.{
  create_sensor, update_sensor, delete_sensor, set_sensor_enabled,
}
use trust_aware_self_healing.SettingsService.{get_settings, write_changes, update_settings}
use trust_aware_self_healing.TrustEngine.{update_trust}
use trust_aware_self_healing.ReadingService.Stages.Trust.{update_trust-Keeps, get_settings-Keeps}
use trust_aware_self_healing.Api.Frame.{IsPeripheral}

-- The property looks neither at the sensors nor at what the trust stage writes.
pub record IsUnscored (env : Env) (P : State env → Type 0) : Type 0 where
  pub sensor : IsFree env P (sensors env)
  pub health : IsFree env P (sensor_health env)
  pub setting : IsFree env P (system_settings env)
  pub event : IsFree env P (fault_events env)

module _ (env : Env) (P : State env → Type 0) (peripheral : IsPeripheral env P)
    (unscored : IsUnscored env P) where
  open env use {floats.{F}}
  open peripheral use {stable}
  open unscored use {sensor, setting}

  pub create_sensor-Keeps : (payload : SensorCreate F) → Keeps P (create_sensor env payload)
  unfolding create_sensor ensure_unique
  create_sensor-Keeps payload = search (keeps, sensor) depth 12

  pub update_sensor-Keeps : (k : String) (u : SensorUpdate F) → Keeps P (update_sensor env k u)
  unfolding update_sensor ensure_exists update_fields write_fields read_back
  update_sensor-Keeps k u = search (keeps, sensor) depth 12

  pub delete_sensor-Keeps : (k : String) → Keeps P (delete_sensor env k)
  unfolding delete_sensor ensure_exists
  delete_sensor-Keeps k = search (keeps, sensor) depth 12

  pub set_sensor_enabled-Keeps :
      (k : String) (enabled : Bool) → Keeps P (set_sensor_enabled env k enabled)
  unfolding set_sensor_enabled ensure_exists read_back
  set_sensor_enabled-Keeps k enabled = search (keeps, sensor) depth 12

  pub settings-Keeps : Keeps P (get_settings env)
  settings-Keeps =
      get_settings-Keeps env P stable (λ s c n. unscored.event.write s c n)
        (λ s c n. setting.write s c n) (λ s c. unscored.health.write s c s.next_id)
        (λ s c. sensor.write s c s.next_id)

  pub update_settings-Keeps : (u : SettingsUpdate F) → Keeps P (update_settings env u)
  unfolding update_settings write_changes
  update_settings-Keeps u = search (keeps, setting, settings-Keeps) depth 12

  pub trust-Keeps : (p : Prediction F) → Keeps P (update_trust env p)
  trust-Keeps =
      update_trust-Keeps env P stable (λ s c n. unscored.event.write s c n)
        (λ s c n. setting.write s c n) (λ s c. unscored.health.write s c s.next_id)
        (λ s c. sensor.write s c s.next_id)
