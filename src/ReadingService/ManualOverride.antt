-- ===== src/ReadingService/ManualOverride.antt =====
-- services/reading_service.py: a reading, and an actuator that automation may not act on.
use trust_aware_self_healing.Shared.{
  ◌≡◌, ap, ◌∙◌, true, false, Option, none, some, String, str_eq, eq_iff, Bool-cases, inl, inr,
}
use trust_aware_self_healing.Mongo.{IsMongo}
use trust_aware_self_healing.Models.{SensorReadingCreate, Actuator, ActuatorState}
use trust_aware_self_healing.Store.Db.{Env, State, actuators}
use trust_aware_self_healing.Store.Keeps.{
  Keeps, IsStable, Keeps-bind, Keeps-pure, Keeps-if, Keeps-now_utc, Keeps-find_one,
  Keeps-insert_one, Keeps-update_one,
}
use trust_aware_self_healing.Store.Ensures.{
  Keeps-of_Ensures, Ensures-of_Keeps, Ensures-bind, Ensures-find_one,
}
use trust_aware_self_healing.ActuatorControl.{
  is_actuator, accepts, automated, apply_to, apply_automated_state,
}
use trust_aware_self_healing.ActuatorControl.Manual.{is_held, held-not_accepted, ids_differ}
use trust_aware_self_healing.ReadingService.{store_reading, create_reading}
use trust_aware_self_healing.ReadingService.Stages.{ensure_exists-Keeps}
use trust_aware_self_healing.ReadingService.Stages.Detection.{score_reading-Keeps}
use trust_aware_self_healing.ReadingService.Stages.Trust.{update_trust-Keeps}
use trust_aware_self_healing.ReadingService.Stages.Value.{compute_trusted_value-Keeps}
use trust_aware_self_healing.ReadingService.Stages.Control.{
  write_state-Keeps, evaluate_and_apply-Keeps,
}
use trust_aware_self_healing.ReadingService.Stages.Chain.{create_reading-Keeps}

module _ (env : Env) where
  open env use {floats.{F}, mongo.{Coll, find_one, update_one}}

  -- The document of actuator k.
  abbrev pub HasActuator : String → Actuator → State env → Type 0
  HasActuator k d s = find_one (is_actuator k) s.actuators ≡ some d

  module _ (laws : IsMongo env.mongo) (k : String) (d : Actuator) (held : is_held d ≡ true) where
    stable : IsStable env (HasActuator k d)
    stable s rest h = h

    -- A command to another actuator does not change this one's document.
    other-Keeps :
        (doc : Option Actuator) (i : String) (desired : ActuatorState) (sensor_id : String)
        (value : F) (rule_id : String)
        → str_eq i k ≡ false
        → Keeps (HasActuator k d) (apply_to env doc i desired sensor_id value rule_id)
    unfolding apply_to
    other-Keeps none i desired sensor_id value rule_id n = Keeps-pure _
    other-Keeps (some doc) i desired sensor_id value rule_id n =
        Keeps-if (accepts doc desired) _ _
          (write_state-Keeps env _ stable (λ s c n h. h) (λ s p h. h) (λ s c n h. h) doc i desired
            sensor_id value rule_id
            λ now. Keeps-update_one env _ stable (actuators env) _ _ λ s h.
              laws.find_one-update_other (is_actuator i) (is_actuator k)
                (automated desired sensor_id now) s.actuators (λ e m. ids_differ i k e n m)
                (λ e m. ids_differ i k e n m)
              ∙ h)
          (Keeps-pure _)

    held-Keeps :
        (doc : Option Actuator) (i : String) (desired : ActuatorState) (sensor_id : String)
        (value : F) (rule_id : String)
        → doc ≡ some d
        → Keeps (HasActuator k d) (apply_to env doc i desired sensor_id value rule_id)
    unfolding apply_to
    held-Keeps doc i desired sensor_id value rule_id e =
        rw (e, apply_to) (rw (held-not_accepted d desired held) (Keeps-pure _))

    apply-HasActuator :
        (i : String) (desired : ActuatorState) (sensor_id : String) (value : F) (rule_id : String)
        → Keeps (HasActuator k d) (apply_automated_state env i desired sensor_id value rule_id)
    unfolding apply_automated_state
    apply-HasActuator i desired sensor_id value rule_id = Keeps-of_Ensures (
        Ensures-bind _ _ (λ doc. str_eq i k ≡ true → doc ≡ some d) (λ _. Unit)
          (Ensures-find_one env _ stable (actuators env) (is_actuator i) _
            (Keeps-find_one env _ stable (actuators env) (is_actuator i))
            (λ s h same. ap (λ j. find_one (is_actuator j) s.actuators) ((eq_iff i k).0 same) ∙ h))
          λ doc q. Ensures-of_Keeps (elim (Bool-cases (str_eq i k)) [
            | inl same ↦ held-Keeps doc i desired sensor_id value rule_id (q same)
            | inr differs ↦ other-Keeps doc i desired sensor_id value rule_id differs
          ]))

    store_reading-HasActuator :
        (payload : SensorReadingCreate F) → Keeps (HasActuator k d) (store_reading env payload)
    unfolding store_reading
    store_reading-HasActuator payload =
        Keeps-bind _ _ (ensure_exists-Keeps env _ stable _ _) λ sensor.
          Keeps-bind _ _ (Keeps-now_utc env _ stable)
            λ now. Keeps-bind _ _ (Keeps-insert_one env _ stable _ _ (λ s h. h)) λ i. Keeps-pure _

    -- With a driver that meets its laws: if the document of actuator k is disabled or not in AUTO mode,
    -- it is the same after any reading, whatever the rules, the models, and the failures of driver
    -- calls are.
    pub held_actuator_unchanged :
        (payload : SensorReadingCreate F) (s : State env)
        → HasActuator k d s
        → HasActuator k d (create_reading env payload s).1
    held_actuator_unchanged payload =
        (create_reading-Keeps env (HasActuator k d)
          (score_reading-Keeps env _ stable (λ s m h. h) (λ s c n h. h))
          (update_trust-Keeps env _ stable (λ s c n h. h) (λ s c n h. h) (λ s c h. h) (λ s c h. h))
          (compute_trusted_value-Keeps env _ stable (λ s m h. h) (λ s c n h. h))
          (evaluate_and_apply-Keeps env _ stable apply-HasActuator) payload
          (store_reading-HasActuator payload)).at
