-- ===== src/Api/Handlers/Nodes.antt =====
-- routes/nodes.py.
use trust_aware_self_healing.Shared.{Bool, String, Option, List}
use trust_aware_self_healing.Models.{NodeCommand}
use trust_aware_self_healing.Store.Run.{Run, ◌>>◌}
use trust_aware_self_healing.Store.Db.{Env, State}
use trust_aware_self_healing.NodeService
use trust_aware_self_healing.NodeCommands
use trust_aware_self_healing.Api.Bodies.{Body, map_result}
use trust_aware_self_healing.Models.{NodeCreate, NodeUpdate}

module _ (env : Env) where
  open env use {floats.{F}, security.{read_id, jwt_expire_minutes}}

  unfoldable pub pending_commands : String → Run (State env) (List NodeCommand)
  pending_commands node_id = do
    NodeService.get_node env node_id
    NodeCommands.list_pending_commands env node_id

  abbrev pub create_node : NodeCreate → Run (State env) (Body F)
  create_node payload = map_result Body.one_node (NodeService.create_node env payload)

  abbrev pub list_nodes : Option Bool → Run (State env) (Body F)
  list_nodes enabled = map_result Body.nodes (NodeService.list_nodes env enabled)

  abbrev pub get_node : String → Run (State env) (Body F)
  get_node k = map_result Body.one_node (NodeService.get_node env k)

  abbrev pub update_node : String → NodeUpdate → Run (State env) (Body F)
  update_node k payload = map_result Body.one_node (NodeService.update_node env k payload)

  abbrev pub delete_node : String → Run (State env) (Body F)
  delete_node k = map_result (λ u. Body.done) (NodeService.delete_node env k)

  abbrev pub node_heartbeat : String → Option String → Run (State env) (Body F)
  node_heartbeat k ip_address =
      map_result Body.one_node (NodeService.record_heartbeat env k ip_address)

  abbrev pub get_pending_commands : String → Run (State env) (Body F)
  get_pending_commands k = map_result Body.commands (pending_commands k)

  abbrev pub acknowledge_command : String → String → Run (State env) (Body F)
  acknowledge_command k command_id =
      map_result Body.one_command (NodeCommands.acknowledge_command env k (read_id command_id))
