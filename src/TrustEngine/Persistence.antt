-- ===== src/TrustEngine/Persistence.antt =====
-- services/trust_engine.py: what the trust stage leaves in the database.
use trust_aware_self_healing.Shared.{
  ◌≡◌, refl, ap, ◌∙◌, Option, none, some, [], String, eq_refl, map_option, none≢some,
}
use trust_aware_self_healing.Mongo.{IsMongo}
use trust_aware_self_healing.Models.{
  Sensor, SensorHealth, SensorStatus, status_eq, Prediction, SystemSettings,
}
use trust_aware_self_healing.Store.Run.{Result, ok, err, lift, or_raise, value_error}
use trust_aware_self_healing.Store.Db.{
  Env, State, sensors, sensor_health, fault_events, system_settings,
}
use trust_aware_self_healing.Store.Quiet.{
  Post, Total, Total-pure, Total-attempt, Total-if, Total-bind, Total-now_utc, Total-find_one,
  Total-insert_one, Total-update_one, Total-upsert_one,
}
use trust_aware_self_healing.SettingsService.{make_default, get_settings}
use trust_aware_self_healing.SelfHealing.{record_transition_if_changed}
use trust_aware_self_healing.TrustEngine.{
  HealthDoc, stored_health, mirror, is_sensor, is_health_of, health_after, store_health,
  record_change, try_record_fault_event, update_trust,
}
use trust_aware_self_healing.TrustEngine.Scoring.{trust_parameters}

abbrev health_pair : {F : Type 0} → SensorHealth F → F × SensorStatus
health_pair h = (h.trust_score, h.status)

abbrev sensor_pair : {F : Type 0} → Sensor F → F × SensorStatus
sensor_pair d = (d.trust_score, d.status)

module _ (env : Env) (k : String) where
  open env use {floats.{F}, mongo.{find_one}}

  -- The score and the status of sensor k, in `sensor_health` and in `sensors`.
  abbrev pub health_view : State env → Option (F × SensorStatus)
  health_view s = map_option health_pair (find_one (is_health_of env k) s.sensor_health)

  abbrev pub sensor_view : State env → Option (F × SensorStatus)
  sensor_view s = map_option sensor_pair (find_one (is_sensor env k) s.sensors)

  -- No driver call to come fails, and sensor k exists.
  pub record IsReady (s : State env) : Type 0 where
    pub quiet : s.outages ≡ []
    pub known : (d : Sensor F) × (find_one (is_sensor env k) s.sensors ≡ some d)

  -- Both collections show this score and status.
  pub record Shows (t : F) (status : SensorStatus) (s : State env) : Type 0 where
    pub quiet : s.outages ≡ []
    pub health : health_view s ≡ some (t, status)
    pub sensor : sensor_view s ≡ some (t, status)

  get_settings-Total : Total IsReady (get_settings env) (λ _. IsReady)
  unfolding get_settings
  get_settings-Total =
      Total-bind _ _ (λ _. IsReady) _
        (Total-find_one env (λ s r. r.quiet) (system_settings env) _ _ (λ s r. r)) defaulted
    where
      defaulted :
          (o : Option (SystemSettings F)) → Total IsReady (make_default env o) (λ _. IsReady)
      defaulted (some d) = unfold make_default in Total-pure d _ (λ s r. r)
      defaulted none =
          unfold make_default in
          Total-bind _ _ (λ _. IsReady) _ (Total-now_utc env (λ s r. r.quiet) _ (λ s r. r))
            λ now.
              Total-bind _ _ (λ _. IsReady) _
                (Total-insert_one env (λ s r. r.quiet) (system_settings env) _ _
                  (λ s r. record { quiet = r.quiet; known = r.known }))
                λ i. Total-pure _ _ (λ s r. r)

  -- The first write is done.
  record IsStored (t : F) (status : SensorStatus) (s : State env) : Type 0 where
    ready : IsReady s
    health : health_view s ≡ some (t, status)

module _ (env : Env) (laws : IsMongo env.mongo) where
  open env use {floats.{F}, mongo.{find_one, insert_one, update_one}}

  -- An upsert by key is found again, whether it inserted or updated.
  health-upserted :
      (h : HealthDoc F) (c : env.mongo.Coll (SensorHealth F)) (o : Option (SensorHealth F))
      → find_one (is_health_of env h.sensor_id) c ≡ o
      → map_option health_pair (
          find_one (is_health_of env h.sensor_id) (elim o [
            | none ↦ insert_one (stored_health h h.updated_at) c
            | some e ↦
                update_one (is_health_of env h.sensor_id) (λ d. stored_health h d.created_at) c
          ]))
        ≡ some (h.trust_score, h.status)
  health-upserted h c none e = ap (map_option health_pair) (
      laws.find_one-insert_new (is_health_of env h.sensor_id) (stored_health h h.updated_at) c
        (eq_refl h.sensor_id) e)
  health-upserted h c (some d) e = ap (map_option health_pair) (
      laws.find_one-update (is_health_of env h.sensor_id) (λ d. stored_health h d.created_at) c
        (λ d m. eq_refl h.sensor_id)
      ∙ ap (map_option (λ (d : SensorHealth F). stored_health h d.created_at)) e)

  sensor-mirrored :
      (h : HealthDoc F) (c : env.mongo.Coll (Sensor F)) (d : Sensor F)
      → find_one (is_sensor env h.sensor_id) c ≡ some d
      → map_option sensor_pair (
          find_one
            (is_sensor env h.sensor_id)
            (update_one (is_sensor env h.sensor_id) (mirror env h) c))
        ≡ some (h.trust_score, h.status)
  sensor-mirrored h c d e = ap (map_option sensor_pair) (
      laws.find_one-update (is_sensor env h.sensor_id) (mirror env h) c (λ d m. m)
      ∙ ap (map_option (mirror env h)) e)

  store_health-Total :
      (h : HealthDoc F)
      → Total
          (IsReady env h.sensor_id)
          (store_health env h)
          (λ _. Shows env h.sensor_id h.trust_score h.status)
  unfolding store_health
  store_health-Total h =
      Total-bind _ _ (λ _. IsStored env h.sensor_id h.trust_score h.status) _
        (Total-upsert_one env (λ s r. r.quiet) (sensor_health env) _ _ _ _
          (λ s r. record {
            ready = record { quiet = r.quiet; known = r.known };
            health = health-upserted h s.sensor_health _ refl;
          }))
        λ u.
          Total-update_one env (λ s r. r.ready.quiet) (sensors env) _ _ _
            (λ s r. record {
              quiet = r.ready.quiet;
              health = r.health;
              sensor = sensor-mirrored h s.sensors r.ready.known.0 r.ready.known.1;
            })

  record_change-Total :
      (k : String) (t : F) (status previous : SensorStatus) (h : HealthDoc F) (p : Prediction F)
      → Total (Shows env k t status) (record_change env previous h p) (λ _. Shows env k t status)
  unfolding record_change try_record_fault_event record_transition_if_changed
  record_change-Total k t status previous h p =
      Total-if (status_eq previous h.status) _ _ _ (Total-pure _ _ (λ s r. r)) (
        Total-bind _ _ (λ _. Shows env k t status) _
          (Total-attempt _ (λ _. Shows env k t status) _
            (Total-if (status_eq previous h.status) _ _ _ (Total-pure _ _ (λ s r. r)) (
              Total-bind _ _ (λ _. Shows env k t status) _
                (Total-now_utc env (λ s r. r.quiet) _ (λ s r. r))
                λ now.
                  Total-bind _ _ (λ _. Shows env k t status) _
                    (Total-insert_one env (λ s r. r.quiet) (fault_events env) _ _
                      (λ s r. record { quiet = r.quiet; health = r.health; sensor = r.sensor }))
                    λ i. Total-pure _ _ (λ s r. r)))
            (λ a s r. r))
          λ r. Total-pure _ _ (λ s r. r))

  found-Total :
      (k : String) (o : Option (Sensor F))
      → Total
          (λ s. IsReady env k s × (o ≡ find_one (is_sensor env k) s.sensors))
          (lift (or_raise o value_error))
          (λ _. IsReady env k)
  unfolding lift
  found-Total k none = record { run = λ s r. absurd (none≢some (r.1 ∙ r.0.known.1)) }
  found-Total k (some d) = record { run = λ s r. r.0 }

  update_trust-Total :
      (p : Prediction F)
      → Total
          (IsReady env p.sensor_id)
          (update_trust env p)
          (λ h. Shows env p.sensor_id h.trust_score h.status)
  unfolding update_trust
  update_trust-Total p =
      Total-bind _ _
        (λ o s. IsReady env p.sensor_id s × (o ≡ find_one (is_sensor env p.sensor_id) s.sensors)) _
        (Total-find_one env (λ s r. r.quiet) (sensors env) _ _ (λ s r. (r, refl)))
        λ found.
          Total-bind _ _ (λ _. IsReady env p.sensor_id) _ (found-Total p.sensor_id found)
            λ sensor.
              Total-bind _ _ (λ _. IsReady env p.sensor_id) _
                (Total-attempt _ _ _ (get_settings-Total env p.sensor_id) (λ a s r. r))
                λ settings.
                  Total-bind _ _ (λ _. IsReady env p.sensor_id) _
                    (Total-find_one env (λ s r. r.quiet) (sensor_health env) _ _ (λ s r. r))
                    λ health.
                      Total-bind _ _ (λ _. IsReady env p.sensor_id) _
                        (Total-now_utc env (λ s r. r.quiet) _ (λ s r. r))
                        λ now.
                          let doc =
                            health_after env (trust_parameters env.floats settings) sensor health p
                              now in
                          Total-bind _ _ (λ _. Shows env p.sensor_id doc.trust_score doc.status) _
                            (store_health-Total doc)
                            λ u.
                              Total-bind _ _ (λ _. Shows env p.sensor_id doc.trust_score doc.status)
                                _
                                (record_change-Total p.sensor_id doc.trust_score doc.status _ doc p)
                                λ v. Total-pure doc _ (λ s r. r)

  -- With a driver that meets its laws: if no driver call fails and the sensor exists, the trust stage
  -- returns a snapshot, and the score and the status of the snapshot are then the ones that both
  -- `sensor_health` and `sensors` show.
  pub update_trust-Shows :
      (p : Prediction F) (s : State env) (d : Sensor F)
      → s.outages ≡ []
      → find_one (is_sensor env p.sensor_id) s.sensors ≡ some d
      → (h : HealthDoc F) × ((update_trust env p s).0 ≡ ok h)
        × (health_view env p.sensor_id (update_trust env p s).1 ≡ some (h.trust_score, h.status))
        × (sensor_view env p.sensor_id (update_trust env p s).1 ≡ some (h.trust_score, h.status))
  update_trust-Shows p s d quiet known =
      let (r, s') = update_trust env p s in
      shown r s' ((update_trust-Total p).run s (record { quiet = quiet; known = (d, known) }))
    where
      shown :
          (r : Result (HealthDoc F)) (s' : State env)
          → Post (λ h. Shows env p.sensor_id h.trust_score h.status) (r, s')
          → (h : HealthDoc F) × (r ≡ ok h)
            × (health_view env p.sensor_id s' ≡ some (h.trust_score, h.status))
            × (sensor_view env p.sensor_id s' ≡ some (h.trust_score, h.status))
      shown (ok h) s' q = (h, refl, q.health, q.sensor)
      shown (err e) s' q = absurd q
