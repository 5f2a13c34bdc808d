-- ===== src/SensorService.antt =====
-- services/sensor_service.py: the registration of sensors.
pub mod Registration
pub mod Merging
use trust_aware_self_healing.Shared.{
  ℕ, Bool, ◌&&◌, ◌||◌, Option, none, some, List, String, str_eq, leb, is_some, or_else,
  set_if_given,
}
use trust_aware_self_healing.Floats.{Floats, of_ℕ}
use trust_aware_self_healing.Models.{Sensor, SensorCreate, SensorUpdate, healthy, sensor_type_value}
use trust_aware_self_healing.Store.Run.{Run, pure, ◌>>=◌, ◌>>◌}
use trust_aware_self_healing.Store.Db.{Env, State, sensors}
use trust_aware_self_healing.Store.Driver.{now_utc, find, insert_one, update_one, delete_one}
use trust_aware_self_healing.Listing.{field_is}
use trust_aware_self_healing.Updates.{flag_is, read_back, update_fields}
use trust_aware_self_healing.Validators.{ensure_unique, ensure_exists}
use trust_aware_self_healing.TrustEngine.{is_sensor}

abbrev pub new_sensor : (fl : Floats) → SensorCreate fl.F → ℕ → Sensor fl.F
new_sensor fl payload now = record {
  sensor_id = payload.sensor_id;
  name = payload.name;
  sensor_type = payload.sensor_type;
  unit = payload.unit;
  location = payload.location;
  node_id = payload.node_id;
  normal_min = payload.normal_min;
  normal_max = payload.normal_max;
  sampling_interval_seconds = payload.sampling_interval_seconds;
  enabled = payload.enabled;
  status = healthy;
  trust_score = of_ℕ fl 100;
  created_at = now;
  updated_at = now;
}

abbrev pub has_changes : {F : Type 0} → SensorUpdate F → Bool
has_changes u =
    is_some u.name
    || is_some u.sensor_type
    || is_some u.unit
    || is_some u.location
    || is_some u.node_id
    || is_some u.normal_min
    || is_some u.normal_max
    || is_some u.sampling_interval_seconds
    || is_some u.enabled

-- The range is not checked again: `normal_min` and `normal_max` are set as they are given.
abbrev pub apply_changes : {F : Type 0} → SensorUpdate F → ℕ → Sensor F → Sensor F
apply_changes u now d = record d {
  name = or_else u.name d.name;
  sensor_type = or_else u.sensor_type d.sensor_type;
  unit = or_else u.unit d.unit;
  location = or_else u.location d.location;
  node_id = set_if_given u.node_id d.node_id;
  normal_min = or_else u.normal_min d.normal_min;
  normal_max = or_else u.normal_max d.normal_max;
  sampling_interval_seconds = or_else u.sampling_interval_seconds d.sampling_interval_seconds;
  enabled = or_else u.enabled d.enabled;
  updated_at = now;
}

abbrev pub with_enabled : {F : Type 0} → Bool → ℕ → Sensor F → Sensor F
with_enabled enabled now d = record d { enabled = enabled; updated_at = now }

module _ (env : Env) where
  open env use {floats.{F}}

  unfoldable pub create_sensor : SensorCreate F → Run (State env) (Sensor F)
  create_sensor payload = do
    ensure_unique env (sensors env) (is_sensor env payload.sensor_id)
    now ← now_utc env
    insert_one env (sensors env) (λ _. new_sensor env.floats payload now)
    pure (new_sensor env.floats payload now)

  unfoldable pub list_sensors : Option String → Option Bool → Run (State env) (List (Sensor F))
  list_sensors sensor_type enabled =
      find env (sensors env)
        (λ d. field_is sensor_type (sensor_type_value d.sensor_type) && flag_is enabled d.enabled)
        (λ d e. leb d.created_at e.created_at)

  unfoldable pub get_sensor : String → Run (State env) (Sensor F)
  get_sensor sensor_id = ensure_exists env (sensors env) (is_sensor env sensor_id)

  unfoldable pub update_sensor : String → SensorUpdate F → Run (State env) (Sensor F)
  update_sensor sensor_id payload = do
    ensure_exists env (sensors env) (is_sensor env sensor_id)
    update_fields env (sensors env) (is_sensor env sensor_id) (has_changes payload)
        (apply_changes payload)

  unfoldable pub delete_sensor : String → Run (State env) (Unit {0})
  delete_sensor sensor_id = do
    ensure_exists env (sensors env) (is_sensor env sensor_id)
    delete_one env (sensors env) (is_sensor env sensor_id)

  unfoldable pub set_sensor_enabled : String → Bool → Run (State env) (Sensor F)
  set_sensor_enabled sensor_id enabled = do
    ensure_exists env (sensors env) (is_sensor env sensor_id)
    now ← now_utc env
    update_one env (sensors env) (is_sensor env sensor_id) (with_enabled enabled now)
    read_back env (sensors env) (is_sensor env sensor_id)
