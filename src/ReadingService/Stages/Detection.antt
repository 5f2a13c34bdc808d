-- ===== src/ReadingService/Stages/Detection.antt =====
-- The AI fault detection stage keeps what looks neither at the predictions nor at the model cache.
use trust_aware_self_healing.Shared.{ℕ, String}
use trust_aware_self_healing.Models.{Reading, Prediction}
use trust_aware_self_healing.Store.Driver.{insert_one}
use trust_aware_self_healing.Store.Db.{Env, State, Detector, ModelSlot, predictions}
use trust_aware_self_healing.Store.Keeps.{
  Keeps, IsStable, Keeps-bind, Keeps-pure, Keeps-lift, Keeps-gets, Keeps-now_utc, Keeps-insert_one,
}
use trust_aware_self_healing.ModelCache.{get_model}
use trust_aware_self_healing.FaultDetection.{get_detector, fetch_history_values, score_reading}
use trust_aware_self_healing.ReadingService.Stages.{find_limited-Keeps, ensure_exists-Keeps}

module _ (env : Env) (P : State env → Type 0) (stable : IsStable env P) where
  open env use {floats.{F}, mongo.{Coll}}

  module _
      (slot : (s : State env) (m : ModelSlot (Detector F)) → P s → P (record s { detector = m }))
      (predicted : (s : State env) (c : Coll (Prediction F)) (n : ℕ)
        → P s
        → P (record s { predictions = c; next_id = n })) where
    insert_prediction-Keeps :
        (make : ℕ → Prediction F) → Keeps P (insert_one env (predictions env) make)
    insert_prediction-Keeps make =
        Keeps-insert_one env P stable (predictions env) make (λ s h. predicted s _ _ h)

    get_detector-Keeps : Keeps P (get_detector env)
    unfolding get_detector
    get_detector-Keeps = record { at = λ s h. slot s (get_model s.detector).1 h }

    fetch_history_values-Keeps :
        (sensor_id : String) (before_id limit : ℕ)
        → Keeps P (fetch_history_values env sensor_id before_id limit)
    unfolding fetch_history_values
    fetch_history_values-Keeps sensor_id before_id limit =
        Keeps-bind _ _ (find_limited-Keeps env P stable _ _ _ _) λ docs. Keeps-pure _

    pub score_reading-Keeps : (reading : Reading F) → Keeps P (score_reading env reading)
    unfolding score_reading
    score_reading-Keeps reading = Keeps-bind _ _ get_detector-Keeps λ model.
        Keeps-bind _ _ (ensure_exists-Keeps env P stable _ _) λ sensor.
          Keeps-bind _ _ (fetch_history_values-Keeps _ _ _) λ history.
            Keeps-bind _ _ (Keeps-lift _) λ anomaly_score. Keeps-bind _ _ (Keeps-lift _) λ label.
              Keeps-bind _ _ (Keeps-gets _) λ file. Keeps-bind _ _ (Keeps-lift _) λ model_version.
                Keeps-bind _ _ (Keeps-now_utc env P stable)
                  λ now. Keeps-bind _ _ (insert_prediction-Keeps _) λ inserted. Keeps-pure _
