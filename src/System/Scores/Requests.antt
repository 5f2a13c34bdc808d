-- ===== src/System/Scores/Requests.antt =====
-- The requests that write to the sensors or the settings, one by one: what the stored scores keep to.
use trust_aware_self_healing.Store.Driver.{update_one}
use trust_aware_self_healing.Shared.{ℕ, true, ◌≡◌, Bool, String, arith, Option, none, some, or_else}
use trust_aware_self_healing.Floats.{IsOrdered, IsExact, of_ℕ}
use trust_aware_self_healing.Mongo.{IsMongo}
use trust_aware_self_healing.Mongo.Contents.{AllStored-insert}
use trust_aware_self_healing.Models.{
  Sensor, SensorCreate, SensorUpdate, SettingsUpdate, SystemSettings,
}
use trust_aware_self_healing.Store.Db.{Env, sensors, system_settings}
use trust_aware_self_healing.Store.Keeps.{
  Keeps, Keeps-bind, Keeps-pure, Keeps-lift, Keeps-if, Keeps-now_utc, Keeps-find_one,
  Keeps-insert_one, Keeps-update_one, Keeps-delete_one,
}
use trust_aware_self_healing.Validators.{ensure_unique}
use trust_aware_self_healing.Updates.{read_back, write_fields, update_fields}
use trust_aware_self_healing.TrustEngine.{is_sensor}
use trust_aware_self_healing.TrustEngine.Scored.{IsScored, IsScored-stable, IsScore, IsSound}
use trust_aware_self_healing.TrustEngine.Range.{get_settings-Ensures}
use trust_aware_self_healing.TrustEngine.Scoring.{trust_parameters}
use trust_aware_self_healing.Store.Ensures.{Keeps-of_Ensures}
use trust_aware_self_healing.Store.Run.{ok}
use trust_aware_self_healing.SensorService.{
  new_sensor, apply_changes, with_enabled, create_sensor, update_sensor, set_sensor_enabled,
  delete_sensor,
}
use trust_aware_self_healing.SettingsService
use trust_aware_self_healing.Api.Schemas.{optional, is_percent, settings_update_valid}
use trust_aware_self_healing.ReadingService.Stages.{ensure_exists-Keeps}

module _ (env : Env) (laws : IsMongo env.mongo) (ordered : IsOrdered env.floats)
    (exact : IsExact env.floats 105) where
  open env use {floats.{F, leb}}

  pub create_sensor-IsScored :
      (payload : SensorCreate F) → Keeps (IsScored env) (create_sensor env payload)
  unfolding create_sensor ensure_unique
  create_sensor-IsScored payload =
      Keeps-bind _ _
        (Keeps-bind _ _ (Keeps-find_one env _ (IsScored-stable env) _ _) λ o. Keeps-lift _)
        λ u. Keeps-bind _ _ (Keeps-now_utc env _ (IsScored-stable env)) λ now.
          Keeps-bind _ _
            (Keeps-insert_one env _ (IsScored-stable env) (sensors env) _ (λ s h. record {
              health = h.health;
              sensor =
                  AllStored-insert env.mongo _ laws (new_sensor env.floats payload now) s.sensors
                    (
                      exact.leb-of_ℕ 0 100 (omega arith) (omega arith),
                      exact.leb-of_ℕ 100 100 (omega arith) (omega arith),
                    )
                    h.sensor;
              settings = h.settings;
              events = h.events;
            }))
            λ i. Keeps-pure _

  -- An update of a sensor that leaves its id and its score alone.
  sensor_update-IsScored :
      (k : String) (f : Sensor F → Sensor F)
      → ((d : Sensor F) → IsScore env d.trust_score → IsScore env (f d).trust_score)
      → Keeps (IsScored env) (update_one env (sensors env) (is_sensor env k) f)
  sensor_update-IsScored k f same =
      Keeps-update_one env _ (IsScored-stable env) (sensors env) _ _ λ s h. record {
        health = h.health;
        sensor = laws.All-update_one _ (is_sensor env k) f s.sensors (λ d m. same d) h.sensor;
        settings = h.settings;
        events = h.events;
      }

  read_sensor-IsScored :
      (k : String) → Keeps (IsScored env) (read_back env (sensors env) (is_sensor env k))
  unfolding read_back
  read_sensor-IsScored k =
      Keeps-bind _ _ (Keeps-find_one env _ (IsScored-stable env) _ _) λ o. Keeps-lift _

  pub update_sensor-IsScored :
      (k : String) (u : SensorUpdate F) → Keeps (IsScored env) (update_sensor env k u)
  unfolding update_sensor update_fields write_fields
  update_sensor-IsScored k u =
      Keeps-bind _ _ (ensure_exists-Keeps env _ (IsScored-stable env) _ _) λ sensor.
        Keeps-bind _ _
          (Keeps-if _ _ _
            (Keeps-bind _ _ (Keeps-now_utc env _ (IsScored-stable env))
              λ now. sensor_update-IsScored k (apply_changes u now) (λ d r. r))
            (Keeps-pure _))
          λ v. read_sensor-IsScored k

  pub set_sensor_enabled-IsScored :
      (k : String) (enabled : Bool) → Keeps (IsScored env) (set_sensor_enabled env k enabled)
  unfolding set_sensor_enabled
  set_sensor_enabled-IsScored k enabled =
      Keeps-bind _ _ (ensure_exists-Keeps env _ (IsScored-stable env) _ _) λ sensor.
        Keeps-bind _ _ (Keeps-now_utc env _ (IsScored-stable env)) λ now.
          Keeps-bind _ _ (sensor_update-IsScored k (with_enabled enabled now) (λ d r. r))
            λ v. read_sensor-IsScored k

  pub delete_sensor-IsScored : (k : String) → Keeps (IsScored env) (delete_sensor env k)
  unfolding delete_sensor
  delete_sensor-IsScored k =
      Keeps-bind _ _ (ensure_exists-Keeps env _ (IsScored-stable env) _ _) λ sensor.
        Keeps-delete_one env _ (IsScored-stable env) (sensors env) _ λ s h. record {
          health = h.health;
          sensor = laws.All-delete_one _ (is_sensor env k) s.sensors h.sensor;
          settings = h.settings;
          events = h.events;
        }

  -- A given field that the schema accepts, over an old one.
  percent_or_else :
      (o : Option F) (old : F)
      → optional (is_percent env.floats) o ≡ true
      → IsScore env old
      → IsScore env (or_else o old)
  percent_or_else none old h r = r
  percent_or_else (some x) old h r = (ground arith, ground arith)

  nonneg_or_else :
      (o : Option F) (old : F)
      → optional (is_percent env.floats) o ≡ true
      → leb (of_ℕ env.floats 0) old ≡ true
      → leb (of_ℕ env.floats 0) (or_else o old) ≡ true
  nonneg_or_else none old h r = r
  nonneg_or_else (some x) old h r = ground arith

  changed_settings-IsSound :
      (u : SettingsUpdate F) (now : ℕ) (d : SystemSettings F)
      → settings_update_valid env.floats u ≡ true
      → IsSound env (trust_parameters env.floats (ok d))
      → IsSound env (trust_parameters env.floats (ok (SettingsService.apply_changes u now d)))
  changed_settings-IsSound u now d valid w =
      let low = percent_or_else u.trust_min d.trust_min (ground arith) (w.lo-le-min, w.min-le-hi) in
      let high =
        percent_or_else u.trust_max d.trust_max (ground arith) (w.lo-le-max, w.max-le-hi) in
      record {
        lo-le-min = low.0;
        min-le-hi = low.1;
        lo-le-max = high.0;
        max-le-hi = high.1;
        penalty_nonneg =
            nonneg_or_else u.fault_penalty d.fault_penalty (ground arith) w.penalty_nonneg;
        gain_nonneg = nonneg_or_else u.recovery_gain d.recovery_gain (ground arith) w.gain_nonneg;
      }

  pub update_settings-IsScored :
      (u : SettingsUpdate F)
      → settings_update_valid env.floats u ≡ true
      → Keeps (IsScored env) (SettingsService.update_settings env u)
  unfolding SettingsService.update_settings SettingsService.write_changes
  update_settings-IsScored u valid =
      Keeps-bind _ _ (Keeps-of_Ensures (get_settings-Ensures env laws ordered exact)) λ old.
        Keeps-bind _ _
          (Keeps-if _ _ _
            (Keeps-bind _ _ (Keeps-now_utc env _ (IsScored-stable env)) λ now.
              Keeps-update_one env _ (IsScored-stable env) (system_settings env) _ _ λ s h. record {
                health = h.health;
                sensor = h.sensor;
                settings =
                    laws.All-update_one _ SettingsService.is_system _ s.system_settings
                      (λ d m w. changed_settings-IsSound u now d valid w) h.settings;
                events = h.events;
              })
            (Keeps-pure _))
          λ v. Keeps-find_one env _ (IsScored-stable env) _ _
