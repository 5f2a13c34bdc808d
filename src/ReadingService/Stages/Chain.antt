-- ===== src/ReadingService/Stages/Chain.antt =====
-- The chain of the four stages keeps what each of them keeps.
use trust_aware_self_healing.Models.{
  SensorReadingCreate, Reading, Prediction, SensorStatus, TrustedReading,
}
use trust_aware_self_healing.Store.Db.{Env, State}
use trust_aware_self_healing.Store.Keeps.{
  Keeps, Keeps-bind, Keeps-pure, Keeps-attempt, Keeps-on_success,
}
use trust_aware_self_healing.FaultDetection.{score_reading}
use trust_aware_self_healing.TrustEngine.{HealthDoc, update_trust}
use trust_aware_self_healing.VirtualSensor.{compute_trusted_value}
use trust_aware_self_healing.Automation.{evaluate_and_apply}
use trust_aware_self_healing.ReadingService.{
  try_evaluate_automation, try_compute_trusted_value, try_update_trust, try_score_reading,
  store_reading, create_reading,
}

module _ (env : Env) (P : State env → Type 0) where
  open env use {floats.{F}}

  module _ (scored : (reading : Reading F) → Keeps P (score_reading env reading))
      (trusted : (p : Prediction F) → Keeps P (update_trust env p))
      (valued : (reading : Reading F) (status : SensorStatus)
        → Keeps P (compute_trusted_value env reading status))
      (automated : (t : TrustedReading F) → Keeps P (evaluate_and_apply env t)) where
    try_evaluate_automation-Keeps : (t : TrustedReading F) → Keeps P (try_evaluate_automation env t)
    unfolding try_evaluate_automation
    try_evaluate_automation-Keeps t =
        Keeps-bind _ _ (Keeps-attempt _ (automated t)) λ r. Keeps-pure _

    try_compute_trusted_value-Keeps :
        (reading : Reading F) (h : HealthDoc F) → Keeps P (try_compute_trusted_value env reading h)
    unfolding try_compute_trusted_value
    try_compute_trusted_value-Keeps reading h =
        Keeps-bind _ _ (Keeps-attempt _ (valued reading h.status))
          λ r. Keeps-on_success r _ try_evaluate_automation-Keeps

    try_update_trust-Keeps :
        (reading : Reading F) (p : Prediction F) → Keeps P (try_update_trust env reading p)
    unfolding try_update_trust
    try_update_trust-Keeps reading p =
        Keeps-bind _ _ (Keeps-attempt _ (trusted p))
          λ r. Keeps-on_success r _ (try_compute_trusted_value-Keeps reading)

    pub try_score_reading-Keeps : (reading : Reading F) → Keeps P (try_score_reading env reading)
    unfolding try_score_reading
    try_score_reading-Keeps reading =
        Keeps-bind _ _ (Keeps-attempt _ (scored reading))
          λ r. Keeps-on_success r _ (try_update_trust-Keeps reading)

    pub create_reading-Keeps :
        (payload : SensorReadingCreate F)
        → Keeps P (store_reading env payload)
        → Keeps P (create_reading env payload)
    unfolding create_reading
    create_reading-Keeps payload stored =
        Keeps-bind _ _ stored
          λ reading. Keeps-bind _ _ (try_score_reading-Keeps reading) λ u. Keeps-pure _
