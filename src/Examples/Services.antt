-- ===== src/Examples/Services.antt =====
-- The services for nodes, sensors and actuators on concrete inputs.
use trust_aware_self_healing.Shared.{
  ◌+◌, ◌*◌, leb, ◌≡◌, refl, true, false, none, some, [], ◌∷◌, if◌then◌else◌,
}
use trust_aware_self_healing.Shared.Int.{ℤ}
use trust_aware_self_healing.Mongo.Listed.{listed-IsMongo}
use trust_aware_self_healing.Models.{
  Node, online, offline, Actuator, ActuatorMode, ActuatorState, ActuatorCommand, command_of,
  SensorUpdate,
}
use trust_aware_self_healing.Store.Run.{ok}
use trust_aware_self_healing.Store.Driver.{find_one}
use trust_aware_self_healing.Store.Db.{State}
use trust_aware_self_healing.ActuatorControl.{is_actuator, accepts, apply_to, apply_automated_state}
use trust_aware_self_healing.ActuatorControl.Writes.{
  switched, apply_automated_state-stores, apply_automated_state-idempotent,
}
use trust_aware_self_healing.ActuatorService.Overrides.{manual_override-overtaken}
use trust_aware_self_healing.ActuatorService.{send_command}
use trust_aware_self_healing.ActuatorService.Commands.{
  promised, after_readings, send_command-stores, manual_command-lasts,
}
use trust_aware_self_healing.ReadingService.ManualOverride.{HasActuator}
use trust_aware_self_healing.NodeService.{get_node, record_heartbeat}
use trust_aware_self_healing.NodeService.Liveness.{HasNode, at_time, heartbeat-get_node}
use trust_aware_self_healing.Examples.Database.{env, units, fan_01, esp32_01, database, reading_of}

abbrev quiet : State env
quiet = database ActuatorMode.auto []

send_command-stores_example :
    let e =
      promised env listed-IsMongo "FAN_01" ActuatorCommand.on 1000 (fan_01 ActuatorMode.auto) in
    ((send_command env "FAN_01" ActuatorCommand.on quiet).0 ≡ ok e)
    × HasActuator env "FAN_01" e (send_command env "FAN_01" ActuatorCommand.on quiet).1
send_command-stores_example =
    send_command-stores env listed-IsMongo "FAN_01" ActuatorCommand.on quiet
      (fan_01 ActuatorMode.auto) refl refl

-- A hot reading, at which the rule would turn the fan on.
manual_command-lasts_example :
    let commanded_state = (send_command env "FAN_01" (command_of ActuatorState.off) quiet).1 in
    let later =
      after_readings env listed-IsMongo "FAN_01"
        (reading_of 35 ∷ reading_of 36 ∷ [])
        (record commanded_state { outages = false ∷ true ∷ [] }) in
    (e : Actuator) × HasActuator env "FAN_01" e later
    × (e.mode ≡ ActuatorMode.manual)
    × (e.state ≡ ActuatorState.off)
manual_command-lasts_example =
    manual_command-lasts env listed-IsMongo "FAN_01" ActuatorState.off quiet
      (fan_01 ActuatorMode.auto) (false ∷ true ∷ []) (reading_of 35 ∷ reading_of 36 ∷ []) refl refl

heartbeat-get_node_example :
    let shown = if leb 100000000 (1000 + 90 * 1000000) then online else offline in
    let later = get_node env "ESP32_01" (
      at_time env listed-IsMongo "ESP32_01" 100000000
        (record_heartbeat env "ESP32_01" none quiet).1) in
    (r : Node) × (later.0 ≡ ok r)
    × (r.status ≡ shown)
    × ((e : Node) × HasNode env listed-IsMongo "ESP32_01" e later.1 × (e.status ≡ shown))
heartbeat-get_node_example =
    heartbeat-get_node env listed-IsMongo "ESP32_01" none quiet esp32_01 100000000 refl refl

-- An update that leaves the sensor with an empty range.
abbrev inverted : SensorUpdate ℤ
inverted = record {
  name = none;
  sensor_type = none;
  unit = none;
  location = none;
  node_id = none;
  normal_min = none;
  normal_max = some (units 1);
  sampling_interval_seconds = none;
  enabled = none;
}

apply_automated_state-stores_example :
    let (r, after) =
      apply_automated_state env "FAN_01" ActuatorState.on "TEMP_01" (units 30) "RULE_001" quiet in
    let e =
      switched env listed-IsMongo "FAN_01" ActuatorState.on "TEMP_01"
        (units 30)
        "RULE_001"
        ActuatorState.on
        1000
        (fan_01 ActuatorMode.auto) in
    (r ≡ ok (some e)) × (env.mongo.find_one (is_actuator "FAN_01") after.actuators ≡ some e)
apply_automated_state-stores_example =
    apply_automated_state-stores env listed-IsMongo "FAN_01" ActuatorState.on "TEMP_01" (units 30)
      "RULE_001" quiet (fan_01 ActuatorMode.auto) refl refl

apply_automated_state-idempotent_example :
    let once =
      (apply_automated_state env "FAN_01" ActuatorState.on "TEMP_01"
        (units 30)
        "RULE_001"
        quiet).1 in
    let (r, twice) =
      apply_automated_state env "FAN_01" ActuatorState.on "TEMP_01" (units 30) "RULE_001" once in
    (r ≡ ok none)
    × (env.mongo.find_one (is_actuator "FAN_01") twice.actuators
        ≡ env.mongo.find_one (is_actuator "FAN_01") once.actuators)
apply_automated_state-idempotent_example =
    apply_automated_state-idempotent env listed-IsMongo "FAN_01" ActuatorState.on "TEMP_01"
      (units 30) "RULE_001" quiet (fan_01 ActuatorMode.auto) refl refl

-- OFF is commanded while the automation is about to switch the fan on.
manual_override-overtaken_example :
    let between = (send_command env "FAN_01" (command_of ActuatorState.off) quiet).1 in
    let last =
      (apply_to env
        (some (fan_01 ActuatorMode.auto))
        "FAN_01"
        ActuatorState.on
        "TEMP_01"
        (units 30)
        "RULE_001"
        between).1 in
    (e : Actuator) × HasActuator env "FAN_01" e last
    × (e.mode ≡ ActuatorMode.manual)
    × (e.state ≡ ActuatorState.on)
unfolding accepts
manual_override-overtaken_example =
    manual_override-overtaken env listed-IsMongo "FAN_01" ActuatorState.off ActuatorState.on
      "TEMP_01" (units 30) "RULE_001" quiet (fan_01 ActuatorMode.auto) refl refl refl
