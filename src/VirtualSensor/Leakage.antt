-- ===== src/VirtualSensor/Leakage.antt =====
-- services/virtual_sensor.py: where the trusted value comes from.
use trust_aware_self_healing.Shared.{
  ◌≡◌, refl, ◌∙◌, ap, Option, none, some, none≢some, Bool, true, false, List, [], ◌∷◌, String,
  str_eq,
}
use trust_aware_self_healing.Models.{
  Sensor, SensorStatus, healthy, status_eq, Reading, TrustedReading, Source, raw,
}
use trust_aware_self_healing.Store.Run.{
  Result, ok, err, Run, pure, lift, or_raise, value_error, ◌>>=◌,
}
use trust_aware_self_healing.Store.Db.{Env, State, sensors, trusted_readings}
use trust_aware_self_healing.Store.Driver.{now_utc, insert_one, driver}
use trust_aware_self_healing.Store.SameResult.{map_result, bind-SameResults}
use trust_aware_self_healing.Store.Quiet.{
  IsQuiet, Total, Post, Total-bind, Total-pure, Total-find_one, Total-now_utc, Total-insert_one,
}
use trust_aware_self_healing.VirtualSensor.{select_value, trusted_doc, compute_trusted_value}

module _ (env : Env) where
  open env use {floats.{F}}

  abbrev pub value_and_source : TrustedReading F → F × Source
  value_and_source t = (t.trusted_value, t.source)

  abbrev with_value : Reading F → F → Reading F
  with_value reading v = record reading { value = v }

  abbrev store_value : Reading F → SensorStatus → F × Source → Run (State env) (TrustedReading F)
  store_value reading status value = do
    now ← now_utc env
    inserted ← insert_one env (trusted_readings env) (trusted_doc env reading status value now)
    pure (trusted_doc env reading status value now inserted)

  -- Whether the insertion succeeds does not depend on the document.
  store-SameValue :
      (reading : Reading F) (v : F) (status : SensorStatus) (value : F × Source) (s : State env)
      → map_result value_and_source (store_value reading status value s).0
        ≡ map_result value_and_source (store_value (with_value reading v) status value s).0
  unfolding ◌>>=◌ now_utc insert_one driver
  store-SameValue reading v status value s = by_outages s.outages
    where
      by_outages :
          (o : List Bool)
          → map_result value_and_source
              (store_value reading status value (record s { outages = o })).0
            ≡ map_result value_and_source
                (store_value (with_value reading v) status value (record s { outages = o })).0
      by_outages [] = refl
      by_outages (true ∷ rest) = refl
      by_outages (false ∷ rest) = refl

  -- While the sensor is not HEALTHY, the trusted value, its source, and the error if there is one do
  -- not depend on the raw value of the reading.
  pub trusted_value-independent_of_raw :
      (reading : Reading F) (v : F) (status : SensorStatus) (s : State env)
      → status_eq status healthy ≡ false
      → map_result value_and_source (compute_trusted_value env reading status s).0
        ≡ map_result value_and_source
            (compute_trusted_value env (record reading { value = v }) status s).0
  unfolding compute_trusted_value select_value
  trusted_value-independent_of_raw reading v status s h = rw h (
      bind-SameResults value_and_source _ _ _
        (λ found. bind-SameResults value_and_source _ _ _ (λ sensor.
          bind-SameResults value_and_source _ _ _
            (λ value. store-SameValue reading v status value)))
        s)

  -- No driver call fails, and the sensor exists.
  abbrev IsKnown : String → State env → Type 0
  IsKnown k s =
      IsQuiet env s
      × ((d : Sensor F) × (env.mongo.find_one (λ e. str_eq e.sensor_id k) s.sensors ≡ some d))

  found-IsQuiet :
      (k : String) (o : Option (Sensor F))
      → Total
          (λ s. IsKnown k s × (o ≡ env.mongo.find_one (λ e. str_eq e.sensor_id k) s.sensors))
          (lift (or_raise o value_error))
          (λ _. IsQuiet env)
  unfolding lift
  found-IsQuiet k none = record { run = λ s r. absurd (none≢some (r.1 ∙ r.0.1.1)) }
  found-IsQuiet k (some d) = record { run = λ s r. r.0.0 }

  -- What the trusted reading of a HEALTHY sensor keeps of the reading.
  abbrev Agrees : Reading F → TrustedReading F → Type 0
  Agrees reading t =
      (t.raw_value ≡ reading.value) × (t.trusted_value ≡ reading.value) × (t.source ≡ raw)

  select_value-Total :
      (sensor : Sensor F) (reading : Reading F) (status : SensorStatus)
      → status_eq status healthy ≡ true
      → Total
          (IsQuiet env)
          (select_value env sensor reading status)
          (λ value s. IsQuiet env s × (value ≡ (reading.value, raw)))
  unfolding select_value
  select_value-Total sensor reading status is_yes = rw is_yes (Total-pure _ _ (λ s q. (q, refl)))

  compute-Total :
      (reading : Reading F) (status : SensorStatus)
      → status_eq status healthy ≡ true
      → Total
          (IsKnown reading.sensor_id)
          (compute_trusted_value env reading status)
          (λ t s. Agrees reading t)
  unfolding compute_trusted_value
  compute-Total reading status is_yes =
      Total-bind _ _
        (λ o s.
          IsKnown reading.sensor_id s
          × (o ≡ env.mongo.find_one (λ e. str_eq e.sensor_id reading.sensor_id) s.sensors))
        _ (Total-find_one env (λ s q. q.0) (sensors env) _ _ (λ s q. (q, refl)))
        λ found.
          Total-bind _ _ (λ _. IsQuiet env) _ (found-IsQuiet reading.sensor_id found)
            λ sensor. Total-bind _ _ _ _ (select_value-Total sensor reading status is_yes) λ value.
              Total-bind _ _ (λ _ s. IsQuiet env s × (value ≡ (reading.value, raw))) _
                (Total-now_utc env (λ s q. q.0) _ (λ s q. q))
                λ now.
                  Total-bind _ _ (λ _ s. value ≡ (reading.value, raw)) _
                    (Total-insert_one env (λ s q. q.0) (trusted_readings env) _ _ (λ s q. q.1))
                    λ inserted. Total-pure _ _ (λ s e.
                      (refl, ap (λ (p : F × Source). p.0) e, ap (λ (p : F × Source). p.1) e))

  -- While the sensor is HEALTHY and exists, and no driver call fails, there is a trusted value: the raw
  -- value of the reading, with the source RAW, and the raw value stands beside it.
  pub trusted_value-of_healthy :
      (reading : Reading F) (status : SensorStatus) (s : State env) (d : Sensor F)
      → status_eq status healthy ≡ true
      → s.outages ≡ []
      → env.mongo.find_one (λ e. str_eq e.sensor_id reading.sensor_id) s.sensors ≡ some d
      → (t : TrustedReading F) × ((compute_trusted_value env reading status s).0 ≡ ok t)
        × (t.raw_value ≡ reading.value)
        × (t.trusted_value ≡ reading.value)
        × (t.source ≡ raw)
  trusted_value-of_healthy reading status s d is_yes quiet known =
      let (r, s') = compute_trusted_value env reading status s in
      returned r s' ((compute-Total reading status is_yes).run s (quiet, (d, known)))
    where
      returned :
          (r : Result (TrustedReading F)) (s' : State env)
          → Post (λ t _. Agrees reading t) (r, s')
          → (t : TrustedReading F) × (r ≡ ok t)
            × (t.raw_value ≡ reading.value)
            × (t.trusted_value ≡ reading.value)
            × (t.source ≡ raw)
      returned (ok t) s' q = (t, refl, q.0, q.1, q.2)
      returned (err e) s' q = absurd q
