-- ===== src/ActuatorControl.antt =====
-- services/actuator.py: the write path of the automation engine to an actuator.
pub mod Manual
pub mod Dispatch
pub mod Writes
use trust_aware_self_healing.Shared.{
  ℕ, Bool, true, false, not, ◌&&◌, ◌||◌, Option, none, some, List, String, str_eq, if◌then◌else◌,
}
use trust_aware_self_healing.Models.{
  Actuator, ActuatorEvent, ActuatorMode, ActuatorState, ActuatorCommand, Reason, automation_rule,
  mode_eq, state_eq, command_of, Node,
}
use trust_aware_self_healing.Store.Run.{
  Run, Result, pure, lift, attempt, or_raise, on_success, type_error, ◌>>=◌, ◌>>◌,
}
use trust_aware_self_healing.Store.Db.{Env, State, actuators, actuator_events, nodes}
use trust_aware_self_healing.Store.Driver.{now_utc, find_one, insert_one, update_one}
use trust_aware_self_healing.NodeCommands.{enqueue_command, push_command_to_node}

abbrev pub is_actuator : String → Actuator → Bool
is_actuator actuator_id d = str_eq d.actuator_id actuator_id

-- May automation act on this actuator to bring it to this state? The early returns: disabled, not in
-- AUTO mode, already there.
unfoldable pub accepts : Actuator → ActuatorState → Bool
accepts doc desired =
    doc.enabled && mode_eq doc.mode ActuatorMode.auto && not (state_eq doc.state desired)

abbrev pub automated : ActuatorState → String → ℕ → Actuator → Actuator
automated desired sensor_id now d = record d {
  state = desired;
  last_command = some (command_of desired);
  controlling_sensor = some sensor_id;
  updated_at = now;
}

module _ (env : Env) where
  open env use {floats.{F}}

  unfoldable pub push_if_known :
      Option Node → String → ActuatorCommand → ℕ → Run (State env) (Unit {0})
  push_if_known none actuator_id command command_id = pure tt
  push_if_known (some node) actuator_id command command_id =
      push_command_to_node env node actuator_id command command_id

  -- Queue the command, then try the direct push; an exception of either is dropped.
  unfoldable pub dispatch : String → String → ActuatorCommand → Run (State env) (Unit {0})
  unfolding push_if_known
  dispatch node_id actuator_id command = do
    queued ← attempt (enqueue_command env node_id actuator_id command)
    on_success queued (λ q. do
      attempt (do
        node ← find_one env (nodes env) (λ d. str_eq d.node_id node_id)
        push_if_known node actuator_id command q.id)
      pure tt)

  unfoldable pub try_dispatch_to_node :
      Option String → String → ActuatorCommand → Run (State env) (Unit {0})
  try_dispatch_to_node none actuator_id command = pure tt
  try_dispatch_to_node (some node_id) actuator_id command =
      if str_eq node_id "" then pure tt else dispatch node_id actuator_id command

  -- The document of `actuator_events` for an automated change.
  abbrev pub automated_event :
      Actuator → ActuatorState → String → F → String → String → ℕ → ℕ → ActuatorEvent F
  automated_event doc desired sensor_id trusted_value rule_id actuator_id now i = record {
    id = i;
    actuator_id = actuator_id;
    command = command_of desired;
    previous_state = doc.state;
    new_state = desired;
    mode = ActuatorMode.auto;
    reason = automation_rule rule_id sensor_id trusted_value;
    sensor_id = some sensor_id;
    trusted_value = some trusted_value;
    timestamp = now;
  }

  unfoldable pub write_state :
      Actuator → String → ActuatorState → String → F → String → Run (State env) (Option Actuator)
  write_state doc actuator_id desired sensor_id trusted_value rule_id = do
    now ← now_utc env
    update_one env (actuators env) (is_actuator actuator_id) (automated desired sensor_id now)
    insert_one env (actuator_events env)
        (automated_event doc desired sensor_id trusted_value rule_id actuator_id now)
    try_dispatch_to_node doc.node_id actuator_id (command_of desired)
    found ← find_one env (actuators env) (is_actuator actuator_id)
    result ← lift (or_raise found type_error)
    pure (some result)

  unfoldable pub apply_to :
      Option Actuator
      → String
      → ActuatorState
      → String
      → F
      → String
      → Run (State env) (Option Actuator)
  apply_to none actuator_id desired sensor_id trusted_value rule_id = pure none
  apply_to (some doc) actuator_id desired sensor_id trusted_value rule_id =
      if accepts doc desired
      then write_state doc actuator_id desired sensor_id trusted_value rule_id
      else pure none

  unfoldable pub apply_automated_state :
      String → ActuatorState → String → F → String → Run (State env) (Option Actuator)
  unfolding apply_to
  apply_automated_state actuator_id desired_state sensor_id trusted_value rule_id = do
    doc ← find_one env (actuators env) (is_actuator actuator_id)
    apply_to doc actuator_id desired_state sensor_id trusted_value rule_id
