-- ===== src/Api/Frame/Reads.antt =====
-- The requests of routes/*.py that only read keep every property that does not look at the driver calls
-- to come.
use trust_aware_self_healing.Shared.{ℕ, String, Bool, Option}
use trust_aware_self_healing.Store.Db.{Env, State}
use trust_aware_self_healing.Store.Keeps.{Keeps, IsStable}
use trust_aware_self_healing.Store.Frame.{keeps}
use trust_aware_self_healing.Validators.{ensure_exists}
use trust_aware_self_healing.Listing.{find_limited, find_newest}
use trust_aware_self_healing.SensorService.{list_sensors, get_sensor}
use trust_aware_self_healing.ReadingService.{list_readings, get_latest_reading}
use trust_aware_self_healing.TrustEngine.{get_health, list_health}
use trust_aware_self_healing.FaultDetection.{list_predictions, get_latest_prediction}
use trust_aware_self_healing.VirtualSensor.{list_trusted, get_latest_trusted}
use trust_aware_self_healing.SelfHealing.{list_fault_events, get_latest_fault_event}
use trust_aware_self_healing.Api.Handlers.SensorHealth.{health_of}

module _ (env : Env) (P : State env → Type 0) (stable : IsStable env P) where
  pub list_sensors-Keeps :
      (t : Option String) (enabled : Option Bool) → Keeps P (list_sensors env t enabled)
  unfolding list_sensors
  list_sensors-Keeps t enabled = search keeps

  pub get_sensor-Keeps : (k : String) → Keeps P (get_sensor env k)
  unfolding get_sensor ensure_exists
  get_sensor-Keeps k = search keeps

  pub list_readings-Keeps : (k : Option String) (n : ℕ) → Keeps P (list_readings env k n)
  unfolding list_readings find_limited
  list_readings-Keeps k n = search keeps

  pub get_latest_reading-Keeps : (k : String) → Keeps P (get_latest_reading env k)
  unfolding get_latest_reading ensure_exists find_newest
  get_latest_reading-Keeps k = search keeps depth 12

  pub list_health-Keeps : (n : ℕ) → Keeps P (list_health env n)
  unfolding list_health find_limited
  list_health-Keeps n = search keeps

  pub health_of-Keeps : (k : String) → Keeps P (health_of env k)
  unfolding health_of ensure_exists get_health
  health_of-Keeps k = search keeps depth 12

  pub list_predictions-Keeps : (k : Option String) (n : ℕ) → Keeps P (list_predictions env k n)
  unfolding list_predictions find_limited
  list_predictions-Keeps k n = search keeps

  pub get_latest_prediction-Keeps : (k : String) → Keeps P (get_latest_prediction env k)
  unfolding get_latest_prediction ensure_exists find_newest
  get_latest_prediction-Keeps k = search keeps depth 12

  pub list_trusted-Keeps : (k : Option String) (n : ℕ) → Keeps P (list_trusted env k n)
  unfolding list_trusted find_limited
  list_trusted-Keeps k n = search keeps

  pub get_latest_trusted-Keeps : (k : String) → Keeps P (get_latest_trusted env k)
  unfolding get_latest_trusted ensure_exists find_newest
  get_latest_trusted-Keeps k = search keeps depth 12

  pub list_fault_events-Keeps : (k : Option String) (n : ℕ) → Keeps P (list_fault_events env k n)
  unfolding list_fault_events find_limited
  list_fault_events-Keeps k n = search keeps

  pub get_latest_fault_event-Keeps : (k : String) → Keeps P (get_latest_fault_event env k)
  unfolding get_latest_fault_event ensure_exists find_newest
  get_latest_fault_event-Keeps k = search keeps depth 12
