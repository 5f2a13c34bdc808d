-- ===== src/ReadingService/RawReadings.antt =====
-- services/reading_service.py: the raw readings behind the stages.
use trust_aware_self_healing.Shared.{◌≡◌, refl}
use trust_aware_self_healing.Models.{SensorReadingCreate, Reading}
use trust_aware_self_healing.Store.Run.{Result, ok, err, continue, pure, ◌>>=◌}
use trust_aware_self_healing.Store.Db.{Env, State}
use trust_aware_self_healing.Store.Keeps.{Keeps, IsStable, Keeps-bind, Keeps-pure}
use trust_aware_self_healing.ReadingService.{try_score_reading, store_reading, create_reading}
use trust_aware_self_healing.ReadingService.Stages.Detection.{score_reading-Keeps}
use trust_aware_self_healing.ReadingService.Stages.Trust.{update_trust-Keeps}
use trust_aware_self_healing.ReadingService.Stages.Value.{compute_trusted_value-Keeps}
use trust_aware_self_healing.ReadingService.Stages.Control.{
  apply_automated_state-Keeps, evaluate_and_apply-Keeps,
}
use trust_aware_self_healing.ReadingService.Stages.Chain.{try_score_reading-Keeps}

module _ (env : Env) where
  open env use {floats.{F}, mongo.{Coll}}

  abbrev HasReadings : Coll (Reading F) → State env → Type 0
  HasReadings c s = s.sensor_readings ≡ c

  module _ (c : Coll (Reading F)) where
    stable : IsStable env (HasReadings c)
    stable s rest h = h

    stages-HasReadings :
        (reading : Reading F) → Keeps (HasReadings c) (try_score_reading env reading)
    stages-HasReadings =
        try_score_reading-Keeps env (HasReadings c)
          (score_reading-Keeps env _ stable (λ s m h. h) (λ s c n h. h))
          (update_trust-Keeps env _ stable (λ s c n h. h) (λ s c n h. h) (λ s c h. h) (λ s c h. h))
          (compute_trusted_value-Keeps env _ stable (λ s m h. h) (λ s c n h. h))
          (evaluate_and_apply-Keeps env _ stable (
            apply_automated_state-Keeps env _ stable (λ s c n h. h) (λ s p h. h) (λ s c n h. h)
              (λ s c h. h)))

  readings_after :
      (r : Result (Reading F)) (s : State env)
      → (continue r (λ a. try_score_reading env a >>= λ _. pure a) s).1.sensor_readings
        ≡ s.sensor_readings
  readings_after (ok a) s =
      (Keeps-bind _ _ (stages-HasReadings s.sensor_readings a) (λ u. Keeps-pure a)).at s refl
  readings_after (err e) s = refl

  -- After a reading the collection of raw readings is what storing that one reading makes of it:
  -- whatever the later stages do or fail to do, they change no raw reading.
  pub sensor_readings-create_reading :
      (payload : SensorReadingCreate F) (s : State env)
      → (create_reading env payload s).1.sensor_readings
        ≡ (store_reading env payload s).1.sensor_readings
  unfolding create_reading ◌>>=◌
  sensor_readings-create_reading payload s =
      let (r, s') = store_reading env payload s in readings_after r s'
