-- ===== src/TrustEngine/Range.antt =====
-- services/trust_engine.py and the settings that it reads: each keeps the scores in their range.
use trust_aware_self_healing.Shared.{ℕ, ◌≡◌, refl, Option, none, some}
use trust_aware_self_healing.Floats.{IsOrdered, IsExact}
use trust_aware_self_healing.Mongo.{IsMongo}
use trust_aware_self_healing.Mongo.Contents.{AllStored-insert}
use trust_aware_self_healing.Models.{
  Sensor, SensorHealth, SensorStatus, status_eq, SystemSettings, Prediction, FaultEvent,
  default_settings,
}
use trust_aware_self_healing.Store.Run.{Result, ok, err, or_raise, value_error, pure}
use trust_aware_self_healing.Store.Db.{Env, sensors, sensor_health, system_settings, fault_events}
use trust_aware_self_healing.Store.Driver.{insert_one}
use trust_aware_self_healing.Store.Keeps.{
  Keeps, Keeps-bind, Keeps-pure, Keeps-if, Keeps-attempt, Keeps-now_utc, Keeps-find_one,
  Keeps-insert_one, Keeps-update_one, Keeps-upsert_one,
}
use trust_aware_self_healing.Store.Ensures.{
  Ensures, Returns, Keeps-of_Ensures, Ensures-of_Keeps, Ensures-bind, Ensures-find_one,
  Ensures-lift, Ensures-attempt,
}
use trust_aware_self_healing.SettingsService.{make_default, get_settings, is_system}
use trust_aware_self_healing.TrustEngine.{
  HealthDoc, stored_health, mirror, health_after, store_health, record_change,
  try_record_fault_event, update_trust, is_sensor, is_health_of,
}
use trust_aware_self_healing.TrustEngine.Scoring.{TrustParameters, trust_parameters, score}
use trust_aware_self_healing.TrustEngine.Bounds.{next_trust-InRange}
use trust_aware_self_healing.SelfHealing.{insert_event, record_transition_if_changed}
use trust_aware_self_healing.TrustEngine.Scored.{
  IsScore, IsSound, IsScored, IsScored-stable, default_parameters-IsSound,
}

module _ (env : Env) where
  open env use {floats.{F, leb}, mongo.{Coll}}

  module _ (laws : IsMongo env.mongo) (ordered : IsOrdered env.floats)
      (exact : IsExact env.floats 105) where
    default_settings-Keeps :
        (now : ℕ)
        → Keeps
            (IsScored env)
            (insert_one env (system_settings env) (λ _. default_settings env.floats now))
    default_settings-Keeps now =
        Keeps-insert_one env _ (IsScored-stable env) (system_settings env) _ λ s h. record {
          health = h.health;
          sensor = h.sensor;
          settings =
              AllStored-insert env.mongo _ laws (default_settings env.floats now) s.system_settings
                (default_parameters-IsSound env exact) h.settings;
          events = h.events;
        }

    make_default-Ensures :
        (doc : Option (SystemSettings F))
        → ((d : SystemSettings F) → doc ≡ some d → IsSound env (trust_parameters env.floats (ok d)))
        → Ensures
            (IsScored env)
            (make_default env doc)
            (λ d. IsSound env (trust_parameters env.floats (ok d)))
    unfolding make_default pure
    make_default-Ensures (some d) q = record { keeps = λ s h. h; returns = λ s h. q d refl }
    make_default-Ensures none q =
        Ensures-bind _ _ (λ _. Unit) _
          (Ensures-of_Keeps (Keeps-now_utc env _ (IsScored-stable env)))
          λ now u.
            Ensures-bind _ _ (λ _. Unit) _ (Ensures-of_Keeps (default_settings-Keeps now))
              λ i v. record {
                keeps = λ s h. h;
                returns = λ s h. default_parameters-IsSound env exact;
              }

    pub get_settings-Ensures :
        Ensures
          (IsScored env)
          (get_settings env)
          (λ d. IsSound env (trust_parameters env.floats (ok d)))
    unfolding get_settings
    get_settings-Ensures =
        Ensures-bind _ _
          (λ doc.
            (d : SystemSettings F)
            → doc ≡ some d
            → IsSound env (trust_parameters env.floats (ok d)))
          _
          (Ensures-find_one env _ (IsScored-stable env) (system_settings env) is_system _
            (Keeps-find_one env _ (IsScored-stable env) _ _)
            (λ s h d e. laws.All-find_one _ is_system s.system_settings d h.settings e))
          make_default-Ensures

    -- The parameters that the trust stage goes by, read or fallen back on.
    parameters-IsSound :
        (r : Result (SystemSettings F))
        → Returns (λ d. IsSound env (trust_parameters env.floats (ok d))) r
        → IsSound env (trust_parameters env.floats r)
    parameters-IsSound (ok d) h = h
    parameters-IsSound (err e) h = default_parameters-IsSound env exact

    store_health-Keeps :
        (h : HealthDoc F) → IsScore env h.trust_score → Keeps (IsScored env) (store_health env h)
    unfolding store_health
    store_health-Keeps h r =
        Keeps-bind _ _
          (Keeps-upsert_one env _ (IsScored-stable env) (sensor_health env) _ _ _
            (λ s q. record {
              health = AllStored-insert env.mongo _ laws _ s.sensor_health r q.health;
              sensor = q.sensor;
              settings = q.settings;
              events = q.events;
            })
            (λ s q. record {
              health =
                  laws.All-update_one _ (is_health_of env h.sensor_id)
                    (λ d. stored_health h d.created_at) s.sensor_health (λ d m t. r) q.health;
              sensor = q.sensor;
              settings = q.settings;
              events = q.events;
            }))
          λ u. Keeps-update_one env _ (IsScored-stable env) (sensors env) _ _ λ s q. record {
            health = q.health;
            sensor =
                laws.All-update_one _ (is_sensor env h.sensor_id) (mirror env h) s.sensors
                  (λ d m t. r) q.sensor;
            settings = q.settings;
            events = q.events;
          }

    health_after-IsScore :
        (p : TrustParameters F) (sensor : Sensor F) (health : Option (SensorHealth F))
        (prediction : Prediction F) (now : ℕ)
        → IsSound env p
        → IsScore env sensor.trust_score
        → ((h : SensorHealth F) → health ≡ some h → IsScore env h.trust_score)
        → IsScore env (health_after env p sensor health prediction now).trust_score
    unfolding score
    health_after-IsScore p sensor none prediction now w r q =
        next_trust-InRange env.floats ordered _ _ p w prediction.is_fault _ r
    health_after-IsScore p sensor (some h) prediction now w r q =
        next_trust-InRange env.floats ordered _ _ p w prediction.is_fault _ (q h refl)

    insert_event-IsScored :
        (make : ℕ → FaultEvent F)
        → ((i : ℕ) → IsScore env (make i).trust_score)
        → Keeps (IsScored env) (insert_one env (fault_events env) make)
    insert_event-IsScored make r =
        Keeps-insert_one env _ (IsScored-stable env) (fault_events env) make λ s h. record {
          health = h.health;
          sensor = h.sensor;
          settings = h.settings;
          events = AllStored-insert env.mongo _ laws _ s.fault_events (r s.next_id) h.events;
        }

    record_change-IsScored :
        (previous : SensorStatus) (h : HealthDoc F) (p : Prediction F)
        → IsScore env h.trust_score
        → Keeps (IsScored env) (record_change env previous h p)
    unfolding record_change try_record_fault_event record_transition_if_changed insert_event
    record_change-IsScored previous h p r =
        Keeps-if (status_eq previous h.status) _ _ (Keeps-pure _) (
          Keeps-bind _ _
            (Keeps-attempt _ (
              Keeps-if (status_eq previous h.status) _ _ (Keeps-pure _) (
                Keeps-bind _ _ (Keeps-now_utc env _ (IsScored-stable env)) λ now.
                  Keeps-bind _ _ (insert_event-IsScored _ (λ i. r)) λ inserted. Keeps-pure _)))
            λ u. Keeps-pure _)

    pub update_trust-IsScored : (p : Prediction F) → Keeps (IsScored env) (update_trust env p)
    unfolding update_trust
    update_trust-IsScored p = Keeps-of_Ensures (
        Ensures-bind _ _ (λ o. (d : Sensor F) → o ≡ some d → IsScore env d.trust_score) (λ _. Unit)
          (Ensures-find_one env _ (IsScored-stable env) (sensors env) (is_sensor env p.sensor_id) _
            (Keeps-find_one env _ (IsScored-stable env) _ _)
            (λ s h d e. laws.All-find_one _ (is_sensor env p.sensor_id) s.sensors d h.sensor e))
          λ found qs.
            Ensures-bind _ _ (λ d. IsScore env d.trust_score) _
              (Ensures-lift _ _ (found_sensor found qs))
              λ sensor rs.
                Ensures-bind _ _ (λ r. IsSound env (trust_parameters env.floats r)) _
                  (Ensures-attempt _ _ _ get_settings-Ensures parameters-IsSound)
                  λ settings w.
                    Ensures-bind _ _
                      (λ o. (h : SensorHealth F) → o ≡ some h → IsScore env h.trust_score) _
                      (Ensures-find_one env _ (IsScored-stable env) (sensor_health env)
                        (is_health_of env p.sensor_id) _
                        (Keeps-find_one env _ (IsScored-stable env) _ _)
                        (λ s h d e.
                          laws.All-find_one _ (is_health_of env p.sensor_id) s.sensor_health d
                            h.health e))
                      λ health qh.
                        Ensures-bind _ _ (λ _. Unit) _
                          (Ensures-of_Keeps (Keeps-now_utc env _ (IsScored-stable env)))
                          λ now u.
                            let r =
                              health_after-IsScore (trust_parameters env.floats settings) sensor
                                health p now w rs qh in
                            Ensures-of_Keeps (
                              Keeps-bind _ _ (store_health-Keeps _ r) λ v.
                                Keeps-bind _ _ (record_change-IsScored _ _ p r) λ v'. Keeps-pure _))
      where
        found_sensor :
            (o : Option (Sensor F))
            → ((d : Sensor F) → o ≡ some d → IsScore env d.trust_score)
            → Returns (λ d. IsScore env d.trust_score) (or_raise o value_error)
        found_sensor none q = tt
        found_sensor (some d) q = q d refl
