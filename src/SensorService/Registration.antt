-- ===== src/SensorService/Registration.antt =====
-- services/sensor_service.py: what a registration and a partial update leave.
use trust_aware_self_healing.Shared.{
  ℕ, ◌≡◌, refl, sym, ap, ◌∙◌, Option, none, some, [], String, none≢some, eq_refl, if◌then◌else◌,
}
use trust_aware_self_healing.Mongo.{IsMongo}
use trust_aware_self_healing.Models.{Sensor, SensorCreate, SensorUpdate}
use trust_aware_self_healing.Store.Run.{Result, ok, err, conflict, lift, ◌>>=◌}
use trust_aware_self_healing.Store.Db.{Env, State, sensors}
use trust_aware_self_healing.Store.Driver.{find_one}
use trust_aware_self_healing.Store.Quiet.{
  IsQuiet, driver-IsQuiet, Total, Post, Total-bind, Total-pure, Total-weaken, Total-find_one,
  Total-now_utc, Total-insert_one,
}
use trust_aware_self_healing.Validators.{absent, ensure_unique}
use trust_aware_self_healing.Updates.Laws.{Has, IsTable, ensure_exists-Total, update_fields-Total}
use trust_aware_self_healing.TrustEngine.{is_sensor}
use trust_aware_self_healing.SensorService.{
  new_sensor, has_changes, apply_changes, create_sensor, update_sensor,
}

module _ (env : Env) (laws : IsMongo env.mongo) where
  open env use {floats.{F}}

  -- The document of sensor k.
  abbrev pub HasSensor : String → Sensor F → State env → Type 0
  HasSensor k d s = env.mongo.find_one (is_sensor env k) s.sensors ≡ some d

  sensors-IsTable : (k : String) → IsTable env (sensors env) (is_sensor env k)
  sensors-IsTable k = record {
    get-put = λ c s. refl;
    outages-put = λ c s. refl;
    clock-put = λ c s. refl;
  }

  -- A partial update of the sensor, by the fields that are given.
  abbrev pub updated : SensorUpdate F → ℕ → Sensor F → Sensor F
  updated u now d = if has_changes u then apply_changes u now d else d

  pub update_sensor-Total :
      (k : String) (u : SensorUpdate F) (now : ℕ) (d : Sensor F)
      → Total (Has env (sensors env) (is_sensor env k) now d) (update_sensor env k u) (λ r s.
        Has env (sensors env) (is_sensor env k) now (updated u now d) s × (r ≡ updated u now d))
  unfolding update_sensor
  update_sensor-Total k u now d =
      Total-bind _ _ (λ _. Has env (sensors env) (is_sensor env k) now d) _
        (Total-weaken _ _ _ (ensure_exists-Total env (sensors env) (is_sensor env k) now d)
          (λ a s h. h.0))
        λ found.
          update_fields-Total env (sensors env) (is_sensor env k) laws (sensors-IsTable k)
            (apply_changes u) (λ n x m. m) now d (has_changes u)

  -- With a driver that meets its laws: while no driver call fails, a partial update of a sensor that
  -- exists replaces the fields that are given and the time, or nothing if none is given, and returns
  -- the document that is then stored.
  pub update_sensor-merges :
      (k : String) (u : SensorUpdate F) (s : State env) (d : Sensor F)
      → s.outages ≡ []
      → HasSensor k d s
      → ((update_sensor env k u s).0 ≡ ok (updated u s.clock d))
        × HasSensor k (updated u s.clock d) (update_sensor env k u s).1
  update_sensor-merges k u s d quiet known =
      let (r, s') = update_sensor env k u s in
      stored (updated u s.clock d) r s' (
        (update_sensor-Total k u s.clock d).run s
          (record { quiet = quiet; time = refl; stored = known }))
    where
      stored :
          (e : Sensor F) (r : Result (Sensor F)) (s' : State env)
          → Post
              (λ r after. Has env (sensors env) (is_sensor env k) s.clock e after × (r ≡ e))
              (r, s')
          → (r ≡ ok e) × HasSensor k e s'
      stored e (ok x) s' q = (ap ok q.1, q.0.stored)
      stored e (err x) s' q = absurd q

  -- No sensor with this id, while no driver call fails.
  record Free (k : String) (now : ℕ) (s : State env) : Type 0 where
    quiet : IsQuiet env s
    time : s.clock ≡ now
    free : env.mongo.find_one (is_sensor env k) s.sensors ≡ none

  absent-Total :
      (k : String) (now : ℕ) (o : Option (Sensor F))
      → Total (λ s. Free k now s × (none ≡ o)) (lift (absent o)) (λ _. Free k now)
  unfolding lift
  absent-Total k now none = record { run = λ s h. h.0 }
  absent-Total k now (some d) = record { run = λ s h. absurd (none≢some h.1) }

  create_sensor-Total :
      (payload : SensorCreate F) (now : ℕ)
      → Total (Free payload.sensor_id now) (create_sensor env payload) (λ r s.
        HasSensor payload.sensor_id (new_sensor env.floats payload now) s
        × (r ≡ new_sensor env.floats payload now))
  unfolding create_sensor ensure_unique
  create_sensor-Total payload now =
      Total-bind _ _ (λ _. Free payload.sensor_id now) _
        (Total-bind _ _ (λ o s. Free payload.sensor_id now s × (none ≡ o)) _
          (Total-find_one env (λ s h. h.quiet) (sensors env) _ _ (λ s h. (h, sym h.free)))
          λ o. absent-Total payload.sensor_id now o)
        λ u.
          Total-bind _ _ (λ n s. Free payload.sensor_id now s × (n ≡ now)) _
            (Total-now_utc env (λ s h. h.quiet) _ (λ s h. (h, h.time)))
            λ n.
              Total-bind _ _
                (λ _ s.
                  HasSensor payload.sensor_id (new_sensor env.floats payload now) s
                  × (new_sensor env.floats payload n ≡ new_sensor env.floats payload now))
                _
                (Total-insert_one env (λ s h. h.0.quiet) (sensors env) _ _
                  (λ s h. (
                    laws.find_one-insert_new _ _ s.sensors (eq_refl payload.sensor_id) h.0.free
                        ∙ ap (λ m. some (new_sensor env.floats payload m)) h.1,
                    ap (new_sensor env.floats payload) h.1,
                  )))
                λ i. Total-pure _ _ (λ s h. h)

  -- With a driver that meets its laws: while no driver call fails, registering a sensor under an id
  -- that is free returns a document with the payload's fields, HEALTHY and with score 100, and that
  -- document is then found under the id.
  pub create_sensor-HasSensor :
      (payload : SensorCreate F) (s : State env)
      → s.outages ≡ []
      → env.mongo.find_one (is_sensor env payload.sensor_id) s.sensors ≡ none
      → ((create_sensor env payload s).0 ≡ ok (new_sensor env.floats payload s.clock))
        × HasSensor payload.sensor_id
            (new_sensor env.floats payload s.clock)
            (create_sensor env payload s).1
  create_sensor-HasSensor payload s quiet free =
      let (r, s') = create_sensor env payload s in
      stored (new_sensor env.floats payload s.clock) r s' (
        (create_sensor-Total payload s.clock).run s
          (record { quiet = quiet; time = refl; free = free }))
    where
      stored :
          (e : Sensor F) (r : Result (Sensor F)) (s' : State env)
          → Post (λ r after. HasSensor payload.sensor_id e after × (r ≡ e)) (r, s')
          → (r ≡ ok e) × HasSensor payload.sensor_id e s'
      stored e (ok x) s' q = (ap ok q.1, q.0)
      stored e (err x) s' q = absurd q

  -- While no driver call fails, registering a sensor under an id that is taken answers 409 and leaves
  -- the state as it is.
  pub create_sensor-taken :
      (payload : SensorCreate F) (s : State env) (d : Sensor F)
      → s.outages ≡ []
      → HasSensor payload.sensor_id d s
      → create_sensor env payload s ≡ (err conflict, s)
  unfolding create_sensor ensure_unique find_one ◌>>=◌
  create_sensor-taken payload s d quiet known = rw (driver-IsQuiet env _ s quiet, known) refl
