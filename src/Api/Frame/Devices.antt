-- ===== src/Api/Frame/Devices.antt =====
-- routes/actuators.py, nodes.py and automation_rules.py: their requests keep what looks at no
-- peripheral collection.
use trust_aware_self_healing.Shared.{ℕ, String, Bool, Option, none, some}
use trust_aware_self_healing.Models.{
  ActuatorCreate, ActuatorUpdate, ActuatorCommand, AutomationRuleCreate, AutomationRuleUpdate,
}
use trust_aware_self_healing.Store.Db.{Env, State, Table}
use trust_aware_self_healing.Store.Keeps.{Keeps}
use trust_aware_self_healing.Store.Frame.{keeps}
use trust_aware_self_healing.Validators.{ensure_unique, ensure_exists}
use trust_aware_self_healing.Updates.{update_fields, write_fields, read_back}
use trust_aware_self_healing.Listing.{find_limited, find_newest}
use trust_aware_self_healing.ReadingService.Stages.Control.{try_dispatch_to_node-Keeps}
use trust_aware_self_healing.NodeService.Frame.{get_node-Keeps}
use trust_aware_self_healing.NodeCommands.{list_pending_commands, acknowledge_command}
use trust_aware_self_healing.ActuatorService.{
  create_actuator, list_actuators, get_actuator, update_actuator, delete_actuator, send_command,
  list_actuator_events, get_latest_actuator_event,
}
use trust_aware_self_healing.AutomationRuleService.{
  create_rule, list_rules, get_rule, ensure_if_given, update_rule, delete_rule,
}
use trust_aware_self_healing.Api.Handlers.Actuators.{set_actuator_enabled}
use trust_aware_self_healing.Api.Handlers.Nodes.{pending_commands}
use trust_aware_self_healing.Api.Frame.{IsPeripheral}

module _ (env : Env) (P : State env → Type 0) (peripheral : IsPeripheral env P) where
  open env use {floats.{F}}
  open peripheral use {stable, actuator, actuator_event, rule, node, node_command}

  pub create_actuator-Keeps : (payload : ActuatorCreate) → Keeps P (create_actuator env payload)
  unfolding create_actuator ensure_unique
  create_actuator-Keeps payload = search (keeps, actuator) depth 12

  pub list_actuators-Keeps :
      (t : Option String) (enabled : Option Bool) → Keeps P (list_actuators env t enabled)
  unfolding list_actuators
  list_actuators-Keeps t enabled = search keeps depth 12

  pub get_actuator-Keeps : (k : String) → Keeps P (get_actuator env k)
  unfolding get_actuator ensure_exists
  get_actuator-Keeps k = search keeps depth 12

  pub update_actuator-Keeps : (k : String) (u : ActuatorUpdate) → Keeps P (update_actuator env k u)
  unfolding update_actuator ensure_exists update_fields write_fields read_back
  update_actuator-Keeps k u = search (keeps, actuator) depth 12

  pub delete_actuator-Keeps : (k : String) → Keeps P (delete_actuator env k)
  unfolding delete_actuator ensure_exists
  delete_actuator-Keeps k = search (keeps, actuator) depth 12

  pub set_actuator_enabled-Keeps :
      (k : String) (enabled : Bool) → Keeps P (set_actuator_enabled env k enabled)
  unfolding set_actuator_enabled
  set_actuator_enabled-Keeps k enabled = search (keeps, actuator, get_actuator-Keeps) depth 12

  pub send_command-Keeps :
      (k : String) (command : ActuatorCommand) → Keeps P (send_command env k command)
  unfolding send_command ensure_exists read_back
  send_command-Keeps k command =
      search
        (
          keeps,
          actuator,
          actuator_event,
          try_dispatch_to_node-Keeps env P stable (λ s c n. node_command.write s c n)
              peripheral.push,
        )
        depth 14

  pub list_actuator_events-Keeps :
      (k : Option String) (limit : ℕ) → Keeps P (list_actuator_events env k limit)
  unfolding list_actuator_events find_limited
  list_actuator_events-Keeps k limit = search keeps depth 12

  pub get_latest_actuator_event-Keeps : (k : String) → Keeps P (get_latest_actuator_event env k)
  unfolding get_latest_actuator_event ensure_exists find_newest
  get_latest_actuator_event-Keeps k = search keeps depth 12

  pub pending_commands-Keeps : (k : String) → Keeps P (pending_commands env k)
  unfolding pending_commands list_pending_commands
  pending_commands-Keeps k = search (keeps, get_node-Keeps env P stable node) depth 12

  pub acknowledge_command-Keeps :
      (k : String) (i : Option ℕ) → Keeps P (acknowledge_command env k i)
  unfolding acknowledge_command
  acknowledge_command-Keeps k i = search (keeps, node_command) depth 14

  pub create_rule-Keeps : (payload : AutomationRuleCreate F) → Keeps P (create_rule env payload)
  unfolding create_rule ensure_unique ensure_exists
  create_rule-Keeps payload = search (keeps, rule) depth 14

  pub list_rules-Keeps :
      (k l : Option String) (enabled : Option Bool) → Keeps P (list_rules env k l enabled)
  unfolding list_rules
  list_rules-Keeps k l enabled = search keeps depth 12

  pub get_rule-Keeps : (k : String) → Keeps P (get_rule env k)
  unfolding get_rule ensure_exists
  get_rule-Keeps k = search keeps depth 12

  ensure_if_given-Keeps :
      {D : Type 0} (t : Table env D) (is : String → D → Bool) (o : Option String)
      → Keeps P (ensure_if_given env t is o)
  unfolding ensure_if_given ensure_exists
  ensure_if_given-Keeps t is none = search keeps
  ensure_if_given-Keeps t is (some k) = search keeps depth 12

  pub update_rule-Keeps : (k : String) (u : AutomationRuleUpdate F) → Keeps P (update_rule env k u)
  unfolding update_rule ensure_exists update_fields write_fields read_back
  update_rule-Keeps k u = search (keeps, rule, ensure_if_given-Keeps) depth 14

  pub delete_rule-Keeps : (k : String) → Keeps P (delete_rule env k)
  unfolding delete_rule ensure_exists
  delete_rule-Keeps k = search (keeps, rule) depth 12
