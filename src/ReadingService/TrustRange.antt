-- ===== src/ReadingService/TrustRange.antt =====
-- services/reading_service.py: the trust scores in the database, and the range of the response schema.
use trust_aware_self_healing.Shared.{refl}
use trust_aware_self_healing.Floats.{IsOrdered, IsExact}
use trust_aware_self_healing.Mongo.{IsMongo}
use trust_aware_self_healing.Models.{SensorReadingCreate}
use trust_aware_self_healing.Store.Db.{Env, State, sensor_readings}
use trust_aware_self_healing.Store.Keeps.{
  Keeps, Keeps-bind, Keeps-pure, Keeps-now_utc, Keeps-insert_one,
}
use trust_aware_self_healing.TrustEngine.Scored.{kept_IsScored, IsScored, IsScored-stable}
use trust_aware_self_healing.TrustEngine.Range.{update_trust-IsScored}
use trust_aware_self_healing.ReadingService.{store_reading, create_reading}
use trust_aware_self_healing.ReadingService.Stages.{ensure_exists-Keeps}
use trust_aware_self_healing.ReadingService.Stages.Detection.{score_reading-Keeps}
use trust_aware_self_healing.ReadingService.Stages.Value.{compute_trusted_value-Keeps}
use trust_aware_self_healing.ReadingService.Stages.Control.{
  apply_automated_state-Keeps, evaluate_and_apply-Keeps,
}
use trust_aware_self_healing.ReadingService.Stages.Chain.{create_reading-Keeps}

module _ (env : Env) where
  open env use {floats.{F}}

  module _ (laws : IsMongo env.mongo) (ordered : IsOrdered env.floats)
      (exact : IsExact env.floats 105) where
    store_reading-IsScored :
        (payload : SensorReadingCreate F) → Keeps (IsScored env) (store_reading env payload)
    unfolding store_reading
    store_reading-IsScored payload =
        Keeps-bind _ _ (ensure_exists-Keeps env _ (IsScored-stable env) _ _) λ sensor.
          Keeps-bind _ _ (Keeps-now_utc env _ (IsScored-stable env)) λ now.
            Keeps-bind _ _
              (Keeps-insert_one env _ (IsScored-stable env) (sensor_readings env) _
                λ s h. kept_IsScored env s _ refl refl refl refl h)
              λ i. Keeps-pure _

    -- With ordered numbers, whole numbers up to 105 exact, and a driver that meets its laws: if every
    -- stored score lies between 0 and 100 and the settings are such as the schema
    -- accepts (the floor may even exceed the ceiling), then so it is after any reading, whatever the
    -- models say and whichever driver calls fail.
    pub create_reading-IsScored :
        (payload : SensorReadingCreate F) (s : State env)
        → IsScored env s
        → IsScored env (create_reading env payload s).1
    create_reading-IsScored payload =
        (create_reading-Keeps env (IsScored env)
          (score_reading-Keeps env _ (IsScored-stable env)
            (λ s m h. kept_IsScored env s _ refl refl refl refl h)
            (λ s c n h. kept_IsScored env s _ refl refl refl refl h))
          (update_trust-IsScored env laws ordered exact)
          (compute_trusted_value-Keeps env _ (IsScored-stable env)
            (λ s m h. kept_IsScored env s _ refl refl refl refl h)
            (λ s c n h. kept_IsScored env s _ refl refl refl refl h))
          (evaluate_and_apply-Keeps env _ (IsScored-stable env) (
            apply_automated_state-Keeps env _ (IsScored-stable env)
              (λ s c n h. kept_IsScored env s _ refl refl refl refl h)
              (λ s p h. kept_IsScored env s _ refl refl refl refl h)
              (λ s c n h. kept_IsScored env s _ refl refl refl refl h)
              (λ s c h. kept_IsScored env s _ refl refl refl refl h)))
          payload (store_reading-IsScored payload)).at
