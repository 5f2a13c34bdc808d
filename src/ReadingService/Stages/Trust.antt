-- ===== src/ReadingService/Stages/Trust.antt =====
-- The trust stage: its steps, each over what it writes, and the whole stage over its steps.
use trust_aware_self_healing.Shared.{ℕ, String, Option, none, some}
use trust_aware_self_healing.Models.{
  Sensor, SensorHealth, SensorStatus, status_eq, Prediction, FaultEvent, SystemSettings,
}
use trust_aware_self_healing.Store.Db.{
  Env, State, fault_events, sensors, sensor_health, system_settings,
}
use trust_aware_self_healing.Store.Keeps.{
  Keeps, IsStable, Keeps-bind, Keeps-pure, Keeps-lift, Keeps-if, Keeps-attempt, Keeps-now_utc,
  Keeps-find_one, Keeps-insert_one, Keeps-update_one, Keeps-upsert_one,
}
use trust_aware_self_healing.SettingsService.{make_default, get_settings}
use trust_aware_self_healing.SelfHealing.{record_transition_if_changed}
use trust_aware_self_healing.TrustEngine.{
  HealthDoc, try_record_fault_event, store_health, record_change, update_trust,
}

module _ (env : Env) (P : State env → Type 0) (stable : IsStable env P) where
  open env use {floats.{F}, mongo.{Coll}}

  module _
      (events : (s : State env) (c : Coll (FaultEvent F)) (n : ℕ)
        → P s
        → P (record s { fault_events = c; next_id = n })) where
    record_transition-Keeps :
        (sensor_id : String) (previous new : SensorStatus) (t : F) (reading timestamp : ℕ)
        → Keeps P (record_transition_if_changed env sensor_id previous new t reading timestamp)
    unfolding record_transition_if_changed
    record_transition-Keeps sensor_id previous new t reading timestamp =
        Keeps-if (status_eq previous new) _ _ (Keeps-pure _) (
          Keeps-bind _ _ (Keeps-now_utc env P stable) λ now.
            Keeps-bind _ _
              (Keeps-insert_one env P stable (fault_events env) _ (λ s h. events s _ _ h))
              λ inserted. Keeps-pure _)

    pub record_change-Keeps :
        (previous : SensorStatus) (h : HealthDoc F) (p : Prediction F)
        → Keeps P (record_change env previous h p)
    unfolding record_change try_record_fault_event
    record_change-Keeps previous h p =
        Keeps-if (status_eq previous h.status) _ _ (Keeps-pure _)
          (Keeps-bind _ _ (Keeps-attempt _ (record_transition-Keeps _ _ _ _ _ _)) λ r. Keeps-pure _)

    module _
        (settings : (s : State env) (c : Coll (SystemSettings F)) (n : ℕ)
          → P s
          → P (record s { system_settings = c; next_id = n }))
        (health : (s : State env) (c : Coll (SensorHealth F))
          → P s
          → P (record s { sensor_health = c }))
        (sensor : (s : State env) (c : Coll (Sensor F)) → P s → P (record s { sensors = c })) where
      make_default-Keeps : (doc : Option (SystemSettings F)) → Keeps P (make_default env doc)
      unfolding make_default
      make_default-Keeps (some d) = Keeps-pure d
      make_default-Keeps none = Keeps-bind _ _ (Keeps-now_utc env P stable) λ now.
          Keeps-bind _ _
            (Keeps-insert_one env P stable (system_settings env) _ (λ s q. settings s _ _ q))
            λ i. Keeps-pure _

      pub get_settings-Keeps : Keeps P (get_settings env)
      unfolding get_settings
      get_settings-Keeps =
          Keeps-bind _ _ (Keeps-find_one env P stable _ _) λ doc. make_default-Keeps doc

      store_health-Keeps : (h : HealthDoc F) → Keeps P (store_health env h)
      unfolding store_health
      store_health-Keeps h =
          Keeps-bind _ _
            (Keeps-upsert_one env P stable (sensor_health env) _ _ _ (λ s q. health s _ q)
              (λ s q. health s _ q))
            λ u. Keeps-update_one env P stable (sensors env) _ _ (λ s q. sensor s _ q)

      pub update_trust-Keeps : (p : Prediction F) → Keeps P (update_trust env p)
      unfolding update_trust
      update_trust-Keeps p = Keeps-bind _ _ (Keeps-find_one env P stable _ _) λ found.
          Keeps-bind _ _ (Keeps-lift _) λ s.
            Keeps-bind _ _ (Keeps-attempt _ get_settings-Keeps) λ r.
              Keeps-bind _ _ (Keeps-find_one env P stable _ _) λ h.
                Keeps-bind _ _ (Keeps-now_utc env P stable) λ now.
                  Keeps-bind _ _ (store_health-Keeps _)
                    λ u. Keeps-bind _ _ (record_change-Keeps _ _ _) λ v. Keeps-pure _
