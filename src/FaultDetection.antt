-- ===== src/FaultDetection.antt =====
-- services/fault_detection.py: the Isolation Forest's verdict on a stored reading.
use trust_aware_self_healing.Shared.{
  ℕ, Bool, true, false, ◌&&◌, Option, none, some, List, String, str_eq, map, reverse, ltb,
}
use trust_aware_self_healing.Models.{Reading, Prediction}
use trust_aware_self_healing.Store.Run.{
  Run, pure, gets, lift, or_raise, not_found, load_error, predict_error, ◌>>=◌, ◌>>◌,
}
use trust_aware_self_healing.Store.Db.{
  Env, State, Label, inlier, outlier, Detector, ModelFile, sensors, sensor_readings, predictions,
}
use trust_aware_self_healing.Store.Driver.{now_utc, insert_one}
use trust_aware_self_healing.Listing.{newest_first, field_is, find_limited, find_newest}
use trust_aware_self_healing.Validators.{ensure_exists}
use trust_aware_self_healing.ModelCache.{get_model}
use trust_aware_self_healing.Features.{compute_feature_vector}

abbrev pub history_lookback : ℕ
history_lookback = 20

-- `predict(...)[0] == -1`
abbrev pub is_outlier : Label → Bool
is_outlier inlier = false
is_outlier outlier = true

-- `MODEL_PATH.stat().st_mtime`
abbrev pub file_mtime : {M : Type 0} → Option (ModelFile M) → Option ℕ
file_mtime none = none
file_mtime (some file) = some file.mtime

module _ (env : Env) where
  open env use {floats.{F}}

  unfoldable pub get_detector : Run (State env) (Detector F)
  get_detector s = let (r, slot) = get_model s.detector in (r, record s { detector = slot })

  abbrev reading_order : Reading F → Reading F → Bool
  reading_order d e = newest_first d.timestamp d.id e.timestamp e.id

  unfoldable pub fetch_history_values : String → ℕ → ℕ → Run (State env) (List F)
  fetch_history_values sensor_id before_id limit = do
    docs ←
        find_limited env (sensor_readings env)
          (λ d. str_eq d.sensor_id sensor_id && ltb d.id before_id) reading_order limit
    pure (reverse (map (λ (d : Reading F). d.value) docs))

  unfoldable pub score_reading : Reading F → Run (State env) (Prediction F)
  score_reading reading = do
    model ← get_detector
    sensor ← ensure_exists env (sensors env) (λ d. str_eq d.sensor_id reading.sensor_id)
    history ← fetch_history_values reading.sensor_id reading.id history_lookback
    let features =
        compute_feature_vector env.floats reading.value sensor.normal_min sensor.normal_max history
    anomaly_score ← lift (or_raise (model.decision_function features) predict_error)
    label ← lift (or_raise (model.predict features) predict_error)
    file ← gets (λ s. s.detector.file)
    model_version ← lift (or_raise (file_mtime file) load_error)
    now ← now_utc env
    let doc = λ (i : ℕ).
        let prediction : Prediction F = record {
          id = i;
          sensor_id = reading.sensor_id;
          reading_id = reading.id;
          value = reading.value;
          timestamp = reading.timestamp;
          anomaly_score = anomaly_score;
          is_fault = is_outlier label;
          model_version = model_version;
          created_at = now;
        } in
        prediction
    inserted ← insert_one env (predictions env) doc
    pure (doc inserted)

  abbrev prediction_order : Prediction F → Prediction F → Bool
  prediction_order d e = newest_first d.timestamp d.id e.timestamp e.id

  unfoldable pub list_predictions : Option String → ℕ → Run (State env) (List (Prediction F))
  list_predictions sensor_id limit =
      find_limited env (predictions env) (λ d. field_is sensor_id d.sensor_id) prediction_order
        limit

  unfoldable pub get_latest_prediction : String → Run (State env) (Prediction F)
  get_latest_prediction sensor_id = do
    ensure_exists env (sensors env) (λ d. str_eq d.sensor_id sensor_id)
    doc ← find_newest env (predictions env) (λ d. str_eq d.sensor_id sensor_id) prediction_order
    lift (or_raise doc not_found)
