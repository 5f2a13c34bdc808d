-- ===== src/ReadingService/Contract.antt =====
-- services/reading_service.py: the answer to a reading, and the stages behind the stored reading.
use trust_aware_self_healing.Shared.{◌≡◌}
use trust_aware_self_healing.Models.{SensorReadingCreate, Reading, Prediction, TrustedReading}
use trust_aware_self_healing.Store.Db.{Env, State}
use trust_aware_self_healing.Store.Succeeds.{
  Succeeds, on_success-Succeeds, attempt-Succeeds, pure-Succeeds, continue-Succeeds,
}
use trust_aware_self_healing.TrustEngine.{HealthDoc}
use trust_aware_self_healing.ReadingService.{
  try_evaluate_automation, try_compute_trusted_value, try_update_trust, try_score_reading,
  store_reading, create_reading,
}

module _ (env : Env) where
  open env use {floats.{F}}

  try_evaluate_automation-Succeeds :
      (t : TrustedReading F) → Succeeds (try_evaluate_automation env t)
  unfolding try_evaluate_automation
  try_evaluate_automation-Succeeds t = attempt-Succeeds _ _ (λ r. pure-Succeeds)

  try_compute_trusted_value-Succeeds :
      (reading : Reading F) (h : HealthDoc F) → Succeeds (try_compute_trusted_value env reading h)
  unfolding try_compute_trusted_value
  try_compute_trusted_value-Succeeds reading h =
      attempt-Succeeds _ _ (λ r. on_success-Succeeds r _ try_evaluate_automation-Succeeds)

  try_update_trust-Succeeds :
      (reading : Reading F) (p : Prediction F) → Succeeds (try_update_trust env reading p)
  unfolding try_update_trust
  try_update_trust-Succeeds reading p =
      attempt-Succeeds _ _
        (λ r. on_success-Succeeds r _ (try_compute_trusted_value-Succeeds reading))

  try_score_reading-Succeeds : (reading : Reading F) → Succeeds (try_score_reading env reading)
  unfolding try_score_reading
  try_score_reading-Succeeds reading =
      attempt-Succeeds _ _ (λ r. on_success-Succeeds r _ (try_update_trust-Succeeds reading))

  -- The answer to a reading, the error included, is that of storing it alone: whatever the models,
  -- the rules and the failures of later driver calls are, the best-effort stages do not change it.
  pub create_reading-eq-store_reading :
      (payload : SensorReadingCreate F) (s : State env)
      → (create_reading env payload s).0 ≡ (store_reading env payload s).0
  unfolding create_reading
  create_reading-eq-store_reading payload s =
      continue-Succeeds (store_reading env payload) (try_score_reading env)
        try_score_reading-Succeeds s
