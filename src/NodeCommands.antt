-- ===== src/NodeCommands.antt =====
-- services/node_command_service.py and esp32/esp32_client.py: the queue of commands that a node polls
-- and acknowledges, and the direct push.
pub mod Lifecycle
use trust_aware_self_healing.Shared.{
  ℕ, Bool, ◌&&◌, ◌||◌, Option, none, some, List, [], ◌∷◌, ◌++◌, String, str_eq, ltb, leb, ◌==◌,
  if◌then◌else◌,
}
use trust_aware_self_healing.Models.{ActuatorCommand, Node, NodeCommand, pending, acked, is_pending}
use trust_aware_self_healing.Store.Run.{
  Run, pure, lift, or_raise, not_found, type_error, ◌>>=◌, ◌>>◌,
}
use trust_aware_self_healing.Store.Db.{Env, State, node_commands}
use trust_aware_self_healing.Store.Driver.{now_utc, find_one, find, insert_one, update_one}

-- `.sort([("created_at", 1), ("_id", 1)])`
abbrev pub oldest_first : NodeCommand → NodeCommand → Bool
oldest_first d e = ltb d.created_at e.created_at || (d.created_at == e.created_at && leb d.id e.id)

module _ (env : Env) where
  unfoldable pub enqueue_command : String → String → ActuatorCommand → Run (State env) NodeCommand
  enqueue_command node_id actuator_id command = do
    now ← now_utc env
    let doc = λ (i : ℕ).
        let queued : NodeCommand = record {
          id = i;
          node_id = node_id;
          actuator_id = actuator_id;
          command = command;
          status = pending;
          created_at = now;
          acked_at = none;
        } in
        queued
    inserted ← insert_one env (node_commands env) doc
    pure (doc inserted)

  unfoldable pub list_pending_commands : String → Run (State env) (List NodeCommand)
  list_pending_commands node_id =
      find env (node_commands env) (λ d. str_eq d.node_id node_id && is_pending d.status)
        oldest_first

  abbrev pub mark_acked : ℕ → NodeCommand → NodeCommand
  mark_acked now d = record d { status = acked; acked_at = some now }

  -- `object_id` is none where `ObjectId(command_id)` raises.
  unfoldable pub acknowledge_command : String → Option ℕ → Run (State env) NodeCommand
  acknowledge_command node_id object_id = do
    oid ← lift (or_raise object_id not_found)
    found ← find_one env (node_commands env) (λ d. (d.id == oid) && str_eq d.node_id node_id)
    lift (or_raise found not_found)
    now ← now_utc env
    update_one env (node_commands env) (λ d. d.id == oid) (mark_acked now)
    doc ← find_one env (node_commands env) (λ d. d.id == oid)
    lift (or_raise doc type_error)

  unfoldable pub send : String → String → ActuatorCommand → ℕ → Run (State env) (Unit {0})
  unfolding pure
  send ip_address actuator_id command command_id s = pure tt (record s {
    pushes =
        s.pushes
        ++ (record {
          ip_address = ip_address;
          actuator_id = actuator_id;
          command = command;
          command_id = command_id;
        }
            ∷ []);
  })

  unfoldable pub push_to : Option String → String → ActuatorCommand → ℕ → Run (State env) (Unit {0})
  push_to none actuator_id command command_id = pure tt
  push_to (some ip) actuator_id command command_id =
      if str_eq ip "" then pure tt else send ip actuator_id command command_id

  -- The answer, which the callers drop, is left out: a request is sent or it is not.
  unfoldable pub push_command_to_node :
      Node → String → ActuatorCommand → ℕ → Run (State env) (Unit {0})
  unfolding push_to send
  push_command_to_node node actuator_id command command_id =
      push_to node.ip_address actuator_id command command_id
