-- ===== src/ReadingService/Stages/Value.antt =====
-- The virtual sensor stage keeps what looks neither at the trusted readings nor at the model cache.
use trust_aware_self_healing.Shared.{ℕ, String}
use trust_aware_self_healing.Models.{
  Sensor, SensorStatus, healthy, status_eq, Reading, TrustedReading,
}
use trust_aware_self_healing.Store.Db.{Env, State, Regressor, ModelSlot, trusted_readings}
use trust_aware_self_healing.Store.Keeps.{
  Keeps, IsStable, Keeps-bind, Keeps-pure, Keeps-lift, Keeps-if, Keeps-now_utc, Keeps-find_one,
  Keeps-insert_one,
}
use trust_aware_self_healing.ModelCache.{get_model}
use trust_aware_self_healing.VirtualSensor.{
  get_regressor, fetch_trusted_history, predict_value, select_value, compute_trusted_value,
}
use trust_aware_self_healing.ReadingService.Stages.{find_limited-Keeps}

module _ (env : Env) (P : State env → Type 0) (stable : IsStable env P) where
  open env use {floats.{F}, mongo.{Coll}}

  module _
      (slot : (s : State env) (m : ModelSlot (Regressor F)) → P s → P (record s { regressor = m }))
      (trusted : (s : State env) (c : Coll (TrustedReading F)) (n : ℕ)
        → P s
        → P (record s { trusted_readings = c; next_id = n })) where
    get_regressor-Keeps : Keeps P (get_regressor env)
    unfolding get_regressor
    get_regressor-Keeps = record { at = λ s h. slot s (get_model s.regressor).1 h }

    fetch_trusted_history-Keeps :
        (sensor_id : String) (before limit : ℕ)
        → Keeps P (fetch_trusted_history env sensor_id before limit)
    unfolding fetch_trusted_history
    fetch_trusted_history-Keeps sensor_id before limit =
        Keeps-bind _ _ (find_limited-Keeps env P stable _ _ _ _) λ docs. Keeps-pure _

    predict_value-Keeps :
        (sensor_id : String) (sensor : Sensor F) (timestamp : ℕ)
        → Keeps P (predict_value env sensor_id sensor timestamp)
    unfolding predict_value
    predict_value-Keeps sensor_id sensor timestamp = Keeps-bind _ _ get_regressor-Keeps λ model.
        Keeps-bind _ _ (fetch_trusted_history-Keeps _ _ _)
          λ history. Keeps-bind _ _ (Keeps-lift _) λ predicted. Keeps-pure _

    select_value-Keeps :
        (sensor : Sensor F) (reading : Reading F) (status : SensorStatus)
        → Keeps P (select_value env sensor reading status)
    unfolding select_value
    select_value-Keeps sensor reading status =
        Keeps-if (status_eq status healthy) _ _ (Keeps-pure _)
          (Keeps-bind _ _ (predict_value-Keeps _ _ _) λ v. Keeps-pure _)

    pub compute_trusted_value-Keeps :
        (reading : Reading F) (status : SensorStatus)
        → Keeps P (compute_trusted_value env reading status)
    unfolding compute_trusted_value
    compute_trusted_value-Keeps reading status =
        Keeps-bind _ _ (Keeps-find_one env P stable _ _) λ found.
          Keeps-bind _ _ (Keeps-lift _) λ sensor. Keeps-bind _ _ (select_value-Keeps _ _ _) λ value.
            Keeps-bind _ _ (Keeps-now_utc env P stable) λ now.
              Keeps-bind _ _
                (Keeps-insert_one env P stable (trusted_readings env) _ (λ s h. trusted s _ _ h))
                λ inserted. Keeps-pure _
