-- ===== src/TrustEngine/Events.antt =====
-- services/trust_engine.py and services/self_healing.py: when a fault event is recorded.
use mathlib.Core.Option.{some-injective}
use trust_aware_self_healing.Shared.{
  ℕ, ◌≡◌, refl, ap, ◌∙◌, Bool-cases, inl, inr, Option, none, some, none≢some, [], if◌then◌else◌,
}
use trust_aware_self_healing.Models.{
  Sensor, SensorHealth, SensorStatus, status_eq, Prediction, FaultEvent, SystemSettings,
}
use trust_aware_self_healing.Store.Run.{Result, ok, err, lift, or_raise, value_error, attempt}
use trust_aware_self_healing.Store.Db.{
  Env, State, sensors, sensor_health, fault_events, system_settings,
}
use trust_aware_self_healing.Store.Quiet.{
  Post, Total, Total-pure, Total-attempt, Total-bind, Total-with, IsQuiet, Total-now_utc,
  Total-find_one, Total-insert_one, Total-update_one, Total-upsert_one,
}
use trust_aware_self_healing.SettingsService.{make_default, get_settings}
use trust_aware_self_healing.SelfHealing.{insert_event, record_transition_if_changed}
use trust_aware_self_healing.TrustEngine.{
  HealthDoc, is_sensor, is_health_of, health_after, store_health, record_change,
  try_record_fault_event, update_trust,
}
use trust_aware_self_healing.TrustEngine.Scoring.{trust_parameters, snapshot}

module _ (env : Env) (p : Prediction env.floats.F) where
  open env use {floats.{F}, mongo.{Coll, find_one, insert_one}}

  abbrev pub previous : Sensor F → Option (SensorHealth F) → SensorStatus
  previous d o = (snapshot env.floats d o).status

  -- The event that a change of status leaves, with id i.
  abbrev pub event_of : SensorStatus → HealthDoc F → ℕ → ℕ → FaultEvent F
  event_of status h now i = record {
    id = i;
    sensor_id = h.sensor_id;
    previous_status = status;
    new_status = h.status;
    trust_score = h.trust_score;
    trigger_reading_id = p.reading_id;
    timestamp = p.timestamp;
    created_at = now;
  }

  -- The events after a prediction that leads from a status to snapshot h.
  abbrev pub events_after :
      SensorStatus → HealthDoc F → ℕ → ℕ → Coll (FaultEvent F) → Coll (FaultEvent F)
  events_after status h now i c =
      if status_eq status h.status then c else insert_one (event_of status h now i) c

  module _ (now : ℕ) (d : Sensor F) (o : Option (SensorHealth F)) (c : Coll (FaultEvent F)) where
    -- What is read before the score is stored.
    record Before (s : State env) : Type 0 where
      quiet : IsQuiet env s
      time : s.clock ≡ now
      sensor : find_one (is_sensor env p.sensor_id) s.sensors ≡ some d
      health : find_one (is_health_of env p.sensor_id) s.sensor_health ≡ o
      events : s.fault_events ≡ c

    record Unrecorded (s : State env) : Type 0 where
      quiet : IsQuiet env s
      time : s.clock ≡ now
      events : s.fault_events ≡ c

    make_default-Total :
        (doc : Option (SystemSettings F)) → Total Before (make_default env doc) (λ _. Before)
    unfolding make_default
    make_default-Total (some doc) = Total-pure _ _ (λ s b. b)
    make_default-Total none =
        Total-bind _ _ (λ _. Before) _ (Total-now_utc env (λ s b. b.quiet) _ (λ s b. b))
          λ t.
            Total-bind _ _ (λ _. Before) _
              (Total-insert_one env (λ s b. b.quiet) (system_settings env) _ _
                (λ s b. record {
                  quiet = b.quiet;
                  time = b.time;
                  sensor = b.sensor;
                  health = b.health;
                  events = b.events;
                }))
              λ i. Total-pure _ _ (λ s b. b)

    settings-Total : Total Before (attempt (get_settings env)) (λ _. Before)
    unfolding get_settings
    settings-Total =
        Total-attempt _ (λ _. Before) _
          (Total-bind _ _ (λ _. Before) _
            (Total-find_one env (λ s b. b.quiet) (system_settings env) _ _ (λ s b. b))
            make_default-Total)
          (λ a s b. b)

    store_health-Total : (h : HealthDoc F) → Total Before (store_health env h) (λ _. Unrecorded)
    unfolding store_health
    store_health-Total h =
        Total-bind _ _ (λ _. Unrecorded) _
          (Total-upsert_one env (λ s b. b.quiet) (sensor_health env) _ _ _ _
            (λ s b. record { quiet = b.quiet; time = b.time; events = b.events }))
          λ u.
            Total-update_one env (λ s b. b.quiet) (sensors env) _ _ _
              (λ s b. record { quiet = b.quiet; time = b.time; events = b.events })

    -- The events are those of a prediction from a status to h.
    abbrev Recorded : SensorStatus → HealthDoc F → State env → Type 0
    Recorded status h s = (i : ℕ) × (s.fault_events ≡ events_after status h now i c)

    insert-Total :
        (status : SensorStatus) (h : HealthDoc F)
        → Total Unrecorded
            (insert_event env h.sensor_id status h.status h.trust_score p.reading_id p.timestamp)
            (λ _ s. (i : ℕ) × (s.fault_events ≡ insert_one (event_of status h now i) c))
    unfolding insert_event
    insert-Total status h =
        Total-bind _ _ (λ n s. Unrecorded s × (n ≡ now)) _
          (Total-now_utc env (λ s b. b.quiet) _ (λ s b. (b, b.time)))
          λ n.
            Total-bind _ _
              (λ _ s. (i : ℕ) × (s.fault_events ≡ insert_one (event_of status h now i) c)) _
              (Total-insert_one env (λ s b. b.0.quiet) (fault_events env) _ _
                (λ s b. (
                  s.next_id,
                  ap (insert_one (event_of status h n s.next_id)) b.0.events
                      ∙ ap (λ m. insert_one (event_of status h m s.next_id) c) b.1,
                )))
              λ i. Total-pure _ _ (λ s b. b)

    record_change-Total :
        (status : SensorStatus) (h : HealthDoc F)
        → Total Unrecorded (record_change env status h p) (λ _. Recorded status h)
    unfolding record_change try_record_fault_event record_transition_if_changed
    record_change-Total status h = elim (Bool-cases (status_eq status h.status)) [
      | inl same ↦ rw same (Total-pure _ _ (λ s b. (0, rw same b.events)))
      | inr differs ↦ rw differs (
          Total-bind _ _
            (λ _ s. (i : ℕ) × (s.fault_events ≡ insert_one (event_of status h now i) c)) _
            (Total-attempt _
              (λ _ s. (i : ℕ) × (s.fault_events ≡ insert_one (event_of status h now i) c)) _
              (insert-Total status h) (λ a s b. b))
            λ r. Total-pure _ _ (λ s b. (b.0, rw differs b.1)))
    ]

    found-Total :
        (found : Option (Sensor F))
        → Total
            (λ s. Before s × (found ≡ some d))
            (lift (or_raise found value_error))
            (λ r s. Before s × (r ≡ d))
    unfolding lift
    found-Total none = record { run = λ s b. absurd (none≢some b.1) }
    found-Total (some x) = record { run = λ s b. (b.0, some-injective _ _ b.1) }

    update_trust-Total : Total Before (update_trust env p) (λ h. Recorded (previous d o) h)
    unfolding update_trust
    update_trust-Total =
        Total-bind _ _ _ _
          (Total-find_one env (λ s b. b.quiet) (sensors env) _ _ (λ s b. (b, b.sensor)))
          λ found. Total-bind _ _ _ _ (found-Total found) λ sensor.
            Total-bind _ _ (λ _ s. Before s × (sensor ≡ d)) _
              (Total-with (sensor ≡ d) _ _ settings-Total)
              λ settings.
                Total-bind _ _ (λ health s. Before s × ((sensor ≡ d) × (health ≡ o))) _
                  (Total-find_one env (λ s b. b.0.quiet) (sensor_health env) _ _
                    (λ s b. (b.0, (b.1, b.0.health))))
                  λ health.
                    Total-bind _ _ (λ _ s. Before s × ((sensor ≡ d) × (health ≡ o))) _
                      (Total-now_utc env (λ s b. b.0.quiet) _ (λ s b. b))
                      λ t.
                        let h =
                          health_after env (trust_parameters env.floats settings) sensor health p
                            t in
                        Total-bind _ _ (λ _ s. Unrecorded s × ((sensor ≡ d) × (health ≡ o))) _
                          (Total-with ((sensor ≡ d) × (health ≡ o)) _ _ (store_health-Total h))
                          λ u.
                            Total-bind _ _
                              (λ _ s.
                                Recorded (previous sensor health) h s
                                × ((sensor ≡ d) × (health ≡ o)))
                              _
                              (Total-with ((sensor ≡ d) × (health ≡ o)) _ _
                                (record_change-Total (previous sensor health) h))
                              λ v. Total-pure h _ (λ s b. moved sensor health h s b.1.0 b.1.1 b.0)
      where
        moved :
            (sensor : Sensor F) (health : Option (SensorHealth F)) (h : HealthDoc F) (s : State env)
            → sensor ≡ d
            → health ≡ o
            → Recorded (previous sensor health) h s
            → Recorded (previous d o) h s
        moved sensor health h s e f (i, q) = (
          i,
          q
              ∙ ap (λ x. events_after x h now i c)
                  (ap (λ x. previous x health) e ∙ ap (previous d) f),
        )

  -- If no driver call fails and the sensor exists, a prediction adds one fault event if the status that
  -- the sensor had differs from the one that the returned snapshot has, with both statuses, the score
  -- and the reading that led to it, and leaves the events as they are if it does not.
  pub update_trust-fault_events :
      (s : State env) (d : Sensor F)
      → s.outages ≡ []
      → find_one (is_sensor env p.sensor_id) s.sensors ≡ some d
      → let before = previous d (find_one (is_health_of env p.sensor_id) s.sensor_health) in
        (h : HealthDoc F) × ((update_trust env p s).0 ≡ ok h)
        × ((i : ℕ) × ((update_trust env p s).1.fault_events
              ≡ events_after before h s.clock i s.fault_events))
  update_trust-fault_events s d quiet known =
      let (r, after) = update_trust env p s in
      recorded r after (
        (update_trust-Total s.clock d _ s.fault_events).run s
          (record { quiet = quiet; time = refl; sensor = known; health = refl; events = refl }))
    where
      before : SensorStatus
      before = previous d (find_one (is_health_of env p.sensor_id) s.sensor_health)

      recorded :
          (r : Result (HealthDoc F)) (after : State env)
          → Post
              (λ h t. (i : ℕ) × (t.fault_events ≡ events_after before h s.clock i s.fault_events))
              (r, after)
          → (h : HealthDoc F) × (r ≡ ok h)
            × ((i : ℕ) × (after.fault_events ≡ events_after before h s.clock i s.fault_events))
      recorded (ok h) after q = (h, refl, q)
      recorded (err e) after q = absurd q
