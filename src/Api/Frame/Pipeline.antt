-- ===== src/Api/Frame/Pipeline.antt =====
-- POST /readings and POST /fault-injection: the whole pipeline keeps what looks at no peripheral
-- collection and is kept by the insertion of a reading and by the trust stage.
use trust_aware_self_healing.Shared.{ℕ, String, Option}
use trust_aware_self_healing.Models.{SensorReadingCreate, Reading, Prediction, Sensor, FaultType}
use trust_aware_self_healing.Store.Db.{Env, State, sensor_readings}
use trust_aware_self_healing.Store.Driver.{insert_one}
use trust_aware_self_healing.Store.Keeps.{Keeps}
use trust_aware_self_healing.Store.Frame.{keeps}
use trust_aware_self_healing.Validators.{ensure_exists}
use trust_aware_self_healing.Listing.{find_newest}
use trust_aware_self_healing.TrustEngine.{update_trust}
use trust_aware_self_healing.ReadingService.{store_reading, create_reading}
use trust_aware_self_healing.ReadingService.Stages.Detection.{score_reading-Keeps}
use trust_aware_self_healing.ReadingService.Stages.Value.{compute_trusted_value-Keeps}
use trust_aware_self_healing.ReadingService.Stages.Control.{
  apply_automated_state-Keeps, evaluate_and_apply-Keeps,
}
use trust_aware_self_healing.ReadingService.Stages.Chain.{create_reading-Keeps}
use trust_aware_self_healing.FaultInjection.{Draw, post_fault, inject_fault}
use trust_aware_self_healing.Api.Frame.{IsPeripheral}

module _ (env : Env) (P : State env → Type 0) (peripheral : IsPeripheral env P) where
  open env use {floats.{F}}
  open peripheral use {stable}

  module _ (inserted : (make : ℕ → Reading F) → Keeps P (insert_one env (sensor_readings env) make))
      (trusted : (p : Prediction F) → Keeps P (update_trust env p)) where
    store_reading-Keeps : (payload : SensorReadingCreate F) → Keeps P (store_reading env payload)
    unfolding store_reading ensure_exists
    store_reading-Keeps payload = search (keeps, inserted) depth 12

    pub reading-Keeps : (payload : SensorReadingCreate F) → Keeps P (create_reading env payload)
    reading-Keeps payload =
        create_reading-Keeps env P
          (score_reading-Keeps env P stable peripheral.detector
            (λ s c n. peripheral.prediction.write s c n))
          trusted
          (compute_trusted_value-Keeps env P stable peripheral.regressor
            (λ s c n. peripheral.trusted_reading.write s c n))
          (evaluate_and_apply-Keeps env P stable (
            apply_automated_state-Keeps env P stable (λ s c n. peripheral.node_command.write s c n)
              peripheral.push (λ s c n. peripheral.actuator_event.write s c n)
              (λ s c. peripheral.actuator.write s c s.next_id)))
          payload (store_reading-Keeps payload)

    post_fault-Keeps :
        (draw : Draw F) (sensor : Sensor F) (k : String) (t : FaultType) (offset : Option F)
        → Keeps P (post_fault env draw sensor k t offset)
    unfolding post_fault find_newest
    post_fault-Keeps draw sensor k t offset = search (keeps, reading-Keeps) depth 12

    pub inject_fault-Keeps :
        (draw : Draw F) (k : String) (t : FaultType) (offset : Option F)
        → Keeps P (inject_fault env draw k t offset)
    unfolding inject_fault ensure_exists
    inject_fault-Keeps draw k t offset = search (keeps, post_fault-Keeps) depth 12
