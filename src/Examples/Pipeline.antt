-- ===== src/Examples/Pipeline.antt =====
-- Readings through the whole pipeline.
use trust_aware_self_healing.Shared.{ℕ, ◌≡◌, refl, Bool, true, false, List, [], ◌∷◌, map, length}
use trust_aware_self_healing.Shared.Int.{ℤ, pos}
use trust_aware_self_healing.Mongo.Listed.{listed-IsMongo}
use trust_aware_self_healing.Models.{
  faulty, recovering, ActuatorMode, ActuatorState, Actuator, FaultEvent, TrustedReading, Sensor,
}
use trust_aware_self_healing.Store.Run.{◌>>=◌}
use trust_aware_self_healing.Store.Db.{State}
use trust_aware_self_healing.Store.Driver.{
  driver, find_one, find, insert_one, update_one, upsert_one, now_utc,
}
use trust_aware_self_healing.Validators.{ensure_exists}
use trust_aware_self_healing.Listing.{find_limited}
use trust_aware_self_healing.ModelCache.{get_model}
use trust_aware_self_healing.Features.{
  compute_feature_vector, compute_virtual_features, denormalize,
}
use trust_aware_self_healing.SettingsService.{get_settings, make_default}
use trust_aware_self_healing.SelfHealing.{record_transition_if_changed}
use trust_aware_self_healing.TrustEngine.{
  update_trust, store_health, record_change, try_record_fault_event,
}
use trust_aware_self_healing.TrustEngine.Scoring.{score}
use trust_aware_self_healing.FaultDetection.{score_reading, get_detector, fetch_history_values}
use trust_aware_self_healing.VirtualSensor.{
  compute_trusted_value, select_value, predicted_pair, predict_value, get_regressor,
  fetch_trusted_history,
}
use trust_aware_self_healing.NodeCommands.{enqueue_command, push_command_to_node, push_to, send}
use trust_aware_self_healing.ActuatorControl.{
  apply_automated_state, apply_to, accepts, write_state, try_dispatch_to_node, dispatch,
  push_if_known,
}
use trust_aware_self_healing.Automation.{evaluate_and_apply, apply_all}
use trust_aware_self_healing.Automation.Rules.{collect, set_command, desired_command_for_rule}
use trust_aware_self_healing.ReadingService.{
  create_reading, store_reading, try_score_reading, try_update_trust, try_compute_trusted_value,
  try_evaluate_automation,
}
use trust_aware_self_healing.ReadingService.Contract.{create_reading-eq-store_reading}
use trust_aware_self_healing.ReadingService.ManualOverride.{HasActuator, held_actuator_unchanged}
use trust_aware_self_healing.TrustEngine.Scored.{IsScored}
use trust_aware_self_healing.Examples.Database.{env, units, fan_01, database, reading_of}

-- The state after one reading; unfolding it unfolds the pipeline.
after : ℕ → State env → State env
unfolding create_reading store_reading ensure_exists try_score_reading try_update_trust
    try_compute_trusted_value try_evaluate_automation score_reading get_detector get_model
    fetch_history_values find_limited compute_feature_vector update_trust get_settings make_default
    store_health record_change try_record_fault_event record_transition_if_changed score
    compute_trusted_value select_value predicted_pair predict_value get_regressor
    fetch_trusted_history compute_virtual_features denormalize evaluate_and_apply apply_all collect
    set_command desired_command_for_rule apply_automated_state apply_to accepts write_state
    try_dispatch_to_node dispatch enqueue_command push_if_known push_command_to_node push_to send
    find_one find insert_one update_one upsert_one now_utc driver ◌>>=◌
after value s = (create_reading env (reading_of value) s).1

abbrev quiet : State env
quiet = database ActuatorMode.auto []

-- A warm reading turns the fan on, and the command is queued and pushed.
warm_reading :
    (map (λ (a : Actuator). a.state) (after 30 quiet).actuators ≡ ActuatorState.on ∷ [])
    × (length (after 30 quiet).node_commands ≡ 1)
    × (length (after 30 quiet).pushes ≡ 1)
unfolding after
warm_reading = (refl, refl, refl)

-- A reading outside the range costs 20 points, and the predicted value (27.5, the middle of the range)
-- stands in for it: the fan stays off.
faulty_reading :
    (map (λ (t : TrustedReading ℤ). t.trusted_value) (after 99 quiet).trusted_readings
      ≡ pos 27500 ∷ [])
    × (map (λ (d : Sensor ℤ). d.trust_score) (after 99 quiet).sensors ≡ units 80 ∷ [])
    × (map (λ (e : FaultEvent ℤ). e.new_status) (after 99 quiet).fault_events ≡ recovering ∷ [])
    × (map (λ (a : Actuator). a.state) (after 99 quiet).actuators ≡ ActuatorState.off ∷ [])
unfolding after
faulty_reading = (refl, refl, refl, refl)

-- Three faults in a row: FAULTY, with one event for each change of the status.
three_faults :
    map (λ (e : FaultEvent ℤ). e.new_status) (after 99 (after 99 (after 99 quiet))).fault_events
    ≡ recovering ∷ faulty ∷ []
unfolding after
three_faults = refl

create_reading-eq-store_reading_example :
    (create_reading env (reading_of 30) (database ActuatorMode.auto (false ∷ false ∷ true ∷ []))).0
    ≡ (store_reading env (reading_of 30) (database ActuatorMode.auto (false ∷ false ∷ true ∷ []))).0
create_reading-eq-store_reading_example =
    create_reading-eq-store_reading env (reading_of 30)
      (database ActuatorMode.auto (false ∷ false ∷ true ∷ []))

-- The fan was switched by hand.
held_actuator_unchanged_example :
    HasActuator env "FAN_01"
      (fan_01 ActuatorMode.manual)
      (create_reading env (reading_of 30) (database ActuatorMode.manual [])).1
held_actuator_unchanged_example =
    held_actuator_unchanged env listed-IsMongo "FAN_01" (fan_01 ActuatorMode.manual) refl
      (reading_of 30) (database ActuatorMode.manual []) refl

pub database-IsScored :
    (mode : ActuatorMode) (outages : List Bool) → IsScored env (database mode outages)
database-IsScored mode outages = record {
  health = tt;
  sensor = ((refl, refl), tt);
  settings = tt;
  events = tt;
}
