-- ===== src/VirtualSensor.antt =====
-- services/virtual_sensor.py: the trusted value of a reading, the raw value itself while the sensor is
-- HEALTHY and the regressor's prediction otherwise.
pub mod Leakage
use trust_aware_self_healing.Shared.{
  ℕ, Bool, true, false, ◌&&◌, Option, none, some, List, [], ◌∷◌, String, str_eq, map, reverse, ltb,
  if◌then◌else◌,
}
use trust_aware_self_healing.Models.{
  Sensor, SensorStatus, healthy, status_eq, Reading, TrustedReading, Source, raw, virtual,
}
use trust_aware_self_healing.Store.Run.{
  Run, Result, pure, lift, or_raise, not_found, value_error, predict_error, ◌>>=◌, ◌>>◌,
}
use trust_aware_self_healing.Store.Db.{Env, State, Regressor, sensors, trusted_readings}
use trust_aware_self_healing.Store.Driver.{now_utc, find_one, insert_one}
use trust_aware_self_healing.Listing.{newest_first, field_is, find_limited, find_newest}
use trust_aware_self_healing.Validators.{ensure_exists}
use trust_aware_self_healing.ModelCache.{get_model}
use trust_aware_self_healing.Features.{compute_virtual_features, denormalize}

abbrev pub history_lookback : ℕ
history_lookback = 20

module _ (env : Env) where
  open env use {floats.{F}}

  unfoldable pub get_regressor : Run (State env) (Regressor F)
  get_regressor s = let (r, slot) = get_model s.regressor in (r, record s { regressor = slot })

  abbrev trusted_order : TrustedReading F → TrustedReading F → Bool
  trusted_order d e = newest_first d.timestamp d.id e.timestamp e.id

  unfoldable pub fetch_trusted_history : String → ℕ → ℕ → Run (State env) (List F)
  fetch_trusted_history sensor_id before_timestamp limit = do
    docs ←
        find_limited env (trusted_readings env)
          (λ d. str_eq d.sensor_id sensor_id && ltb d.timestamp before_timestamp) trusted_order
          limit
    pure (reverse (map (λ (d : TrustedReading F). d.trusted_value) docs))

  -- The regressor's value for a sensor at a point in time.
  unfoldable pub predict_value : String → Sensor F → ℕ → Run (State env) F
  predict_value sensor_id sensor timestamp = do
    model ← get_regressor
    history ← fetch_trusted_history sensor_id timestamp history_lookback
    let features =
        compute_virtual_features env.floats timestamp sensor.normal_min sensor.normal_max history
    predicted ← lift (or_raise (model.predict features) predict_error)
    pure (denormalize env.floats predicted sensor.normal_min sensor.normal_max)

  unfoldable pub predicted_pair : String → Sensor F → ℕ → Run (State env) (F × Source)
  predicted_pair sensor_id sensor timestamp = do
    v ← predict_value sensor_id sensor timestamp
    pure (v, virtual)

  -- The trusted value and its source.
  unfoldable pub select_value : Sensor F → Reading F → SensorStatus → Run (State env) (F × Source)
  unfolding predicted_pair
  select_value sensor reading status =
      if status_eq status healthy
      then pure (reading.value, raw)
      else predicted_pair reading.sensor_id sensor reading.timestamp

  abbrev pub trusted_doc : Reading F → SensorStatus → F × Source → ℕ → ℕ → TrustedReading F
  trusted_doc reading status (value, source) now i = record {
    id = i;
    sensor_id = reading.sensor_id;
    reading_id = reading.id;
    raw_value = reading.value;
    trusted_value = value;
    source = source;
    status_at_prediction = status;
    timestamp = reading.timestamp;
    created_at = now;
  }

  unfoldable pub compute_trusted_value :
      Reading F → SensorStatus → Run (State env) (TrustedReading F)
  compute_trusted_value reading status = do
    found ← find_one env (sensors env) (λ d. str_eq d.sensor_id reading.sensor_id)
    sensor ← lift (or_raise found value_error)
    value ← select_value sensor reading status
    now ← now_utc env
    inserted ← insert_one env (trusted_readings env) (trusted_doc reading status value now)
    pure (trusted_doc reading status value now inserted)

  unfoldable pub list_trusted : Option String → ℕ → Run (State env) (List (TrustedReading F))
  list_trusted sensor_id limit =
      find_limited env (trusted_readings env) (λ d. field_is sensor_id d.sensor_id) trusted_order
        limit

  unfoldable pub get_latest_trusted : String → Run (State env) (TrustedReading F)
  get_latest_trusted sensor_id = do
    ensure_exists env (sensors env) (λ d. str_eq d.sensor_id sensor_id)
    doc ← find_newest env (trusted_readings env) (λ d. str_eq d.sensor_id sensor_id) trusted_order
    lift (or_raise doc not_found)
