-- ===== src/ActuatorService.antt =====
-- services/actuator_service.py: the actuators, and the manual commands to them.
pub mod Commands
pub mod Overrides
use trust_aware_self_healing.Shared.{
  ℕ, Bool, true, false, ◌&&◌, ◌||◌, Option, none, some, List, String, str_eq, leb, is_some, or_else,
  set_if_given,
}
use trust_aware_self_healing.Models.{
  Actuator, ActuatorCreate, ActuatorUpdate, ActuatorEvent, ActuatorMode, ActuatorState,
  ActuatorCommand, Reason, switched_to_auto, manual_command, actuator_type_value,
}
use trust_aware_self_healing.Store.Run.{Run, pure, lift, or_raise, not_found, ◌>>=◌, ◌>>◌}
use trust_aware_self_healing.Store.Db.{Env, State, actuators, actuator_events}
use trust_aware_self_healing.Store.Driver.{now_utc, find, insert_one, update_one, delete_one}
use trust_aware_self_healing.Listing.{newest_first, field_is, find_limited, find_newest}
use trust_aware_self_healing.Updates.{flag_is, read_back, update_fields}
use trust_aware_self_healing.Validators.{ensure_unique, ensure_exists}
use trust_aware_self_healing.ActuatorControl.{is_actuator, try_dispatch_to_node}

abbrev pub new_actuator : ActuatorCreate → ℕ → Actuator
new_actuator payload now = record {
  actuator_id = payload.actuator_id;
  name = payload.name;
  actuator_type = payload.actuator_type;
  location = payload.location;
  node_id = payload.node_id;
  mode = payload.mode;
  enabled = payload.enabled;
  state = ActuatorState.off;
  last_command = none;
  controlling_sensor = none;
  created_at = now;
  updated_at = now;
}

abbrev pub has_changes : ActuatorUpdate → Bool
has_changes u =
    is_some u.name
    || is_some u.actuator_type
    || is_some u.location
    || is_some u.node_id
    || is_some u.mode
    || is_some u.enabled

abbrev pub apply_changes : ActuatorUpdate → ℕ → Actuator → Actuator
apply_changes u now d = record d {
  name = or_else u.name d.name;
  actuator_type = or_else u.actuator_type d.actuator_type;
  location = or_else u.location d.location;
  node_id = set_if_given u.node_id d.node_id;
  mode = or_else u.mode d.mode;
  enabled = or_else u.enabled d.enabled;
  updated_at = now;
}

-- Mode and state after a manual command, and the reason that is recorded.
abbrev pub mode_after : ActuatorCommand → ActuatorMode
mode_after ActuatorCommand.auto = ActuatorMode.auto
mode_after ActuatorCommand.on = ActuatorMode.manual
mode_after ActuatorCommand.off = ActuatorMode.manual

abbrev pub state_after : ActuatorCommand → ActuatorState → ActuatorState
state_after ActuatorCommand.auto previous = previous
state_after ActuatorCommand.on previous = ActuatorState.on
state_after ActuatorCommand.off previous = ActuatorState.off

abbrev pub reason_of : {F : Type 0} → ActuatorCommand → Reason F
reason_of ActuatorCommand.auto = switched_to_auto
reason_of ActuatorCommand.on = manual_command ActuatorCommand.on
reason_of ActuatorCommand.off = manual_command ActuatorCommand.off

-- `$set` of the mode and the state that were computed from the document read before.
abbrev pub commanded : ActuatorCommand → ActuatorState → ℕ → Actuator → Actuator
commanded command new_state now d = record d {
  mode = mode_after command;
  state = new_state;
  last_command = some command;
  updated_at = now;
}

module _ (env : Env) where
  open env use {floats.{F}}

  unfoldable pub create_actuator : ActuatorCreate → Run (State env) Actuator
  create_actuator payload = do
    ensure_unique env (actuators env) (is_actuator payload.actuator_id)
    now ← now_utc env
    insert_one env (actuators env) (λ _. new_actuator payload now)
    pure (new_actuator payload now)

  unfoldable pub list_actuators : Option String → Option Bool → Run (State env) (List Actuator)
  list_actuators actuator_type enabled =
      find env (actuators env)
        (λ d.
          field_is actuator_type (actuator_type_value d.actuator_type) && flag_is enabled d.enabled)
        (λ d e. leb d.created_at e.created_at)

  unfoldable pub get_actuator : String → Run (State env) Actuator
  get_actuator actuator_id = ensure_exists env (actuators env) (is_actuator actuator_id)

  unfoldable pub update_actuator : String → ActuatorUpdate → Run (State env) Actuator
  update_actuator actuator_id payload = do
    ensure_exists env (actuators env) (is_actuator actuator_id)
    update_fields env (actuators env) (is_actuator actuator_id) (has_changes payload)
        (apply_changes payload)

  unfoldable pub delete_actuator : String → Run (State env) (Unit {0})
  delete_actuator actuator_id = do
    ensure_exists env (actuators env) (is_actuator actuator_id)
    delete_one env (actuators env) (is_actuator actuator_id)

  -- The document of `actuator_events` for a manual command.
  abbrev pub manual_event : Actuator → String → ActuatorCommand → ℕ → ℕ → ActuatorEvent F
  manual_event current actuator_id command now i = record {
    id = i;
    actuator_id = actuator_id;
    command = command;
    previous_state = current.state;
    new_state = state_after command current.state;
    mode = mode_after command;
    reason = reason_of command;
    sensor_id = current.controlling_sensor;
    trusted_value = none;
    timestamp = now;
  }

  unfoldable pub send_command : String → ActuatorCommand → Run (State env) Actuator
  send_command actuator_id command = do
    current ← ensure_exists env (actuators env) (is_actuator actuator_id)
    now ← now_utc env
    update_one env (actuators env) (is_actuator actuator_id)
        (commanded command (state_after command current.state) now)
    insert_one env (actuator_events env) (manual_event current actuator_id command now)
    try_dispatch_to_node env current.node_id actuator_id command
    read_back env (actuators env) (is_actuator actuator_id)

  abbrev event_order : ActuatorEvent F → ActuatorEvent F → Bool
  event_order d e = newest_first d.timestamp d.id e.timestamp e.id

  unfoldable pub list_actuator_events : Option String → ℕ → Run (State env) (List (ActuatorEvent F))
  list_actuator_events actuator_id limit =
      find_limited env (actuator_events env) (λ d. field_is actuator_id d.actuator_id) event_order
        limit

  unfoldable pub get_latest_actuator_event : String → Run (State env) (ActuatorEvent F)
  get_latest_actuator_event actuator_id = do
    ensure_exists env (actuators env) (is_actuator actuator_id)
    doc ← find_newest env (actuator_events env) (λ d. str_eq d.actuator_id actuator_id) event_order
    lift (or_raise doc not_found)
