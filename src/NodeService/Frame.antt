-- ===== src/NodeService/Frame.antt =====
-- services/node_service.py and services/node_command_service.py: what looks at no node is kept.
use trust_aware_self_healing.Shared.{String, Bool, Option, List, [], ◌∷◌}
use trust_aware_self_healing.Models.{Node, NodeCreate, NodeUpdate}
use trust_aware_self_healing.Store.Db.{Env, State, nodes}
use trust_aware_self_healing.Store.Keeps.{Keeps, IsStable, Keeps-bind}
use trust_aware_self_healing.Store.Frame.{IsFree, keeps}
use trust_aware_self_healing.Validators.{ensure_unique, ensure_exists}
use trust_aware_self_healing.Updates.{update_fields, write_fields, read_back}
use trust_aware_self_healing.NodeService.{
  create_node, mark_offline, maybe_mark_offline, mark_all, list_nodes, get_node, update_node,
  delete_node, record_heartbeat,
}

module _ (env : Env) (P : State env → Type 0) (stable : IsStable env P)
    (free : IsFree env P (nodes env)) where
  pub create_node-Keeps : (payload : NodeCreate) → Keeps P (create_node env payload)
  unfolding create_node ensure_unique
  create_node-Keeps payload = search keeps depth 12

  pub update_node-Keeps : (k : String) (u : NodeUpdate) → Keeps P (update_node env k u)
  unfolding update_node ensure_exists update_fields write_fields read_back
  update_node-Keeps k u = search keeps depth 12

  pub delete_node-Keeps : (k : String) → Keeps P (delete_node env k)
  unfolding delete_node ensure_exists
  delete_node-Keeps k = search keeps depth 12

  maybe_mark_offline-Keeps : (d : Node) → Keeps P (maybe_mark_offline env d)
  unfolding maybe_mark_offline mark_offline
  maybe_mark_offline-Keeps d = search keeps depth 12

  mark_all-Keeps : (ds : List Node) → Keeps P (mark_all env ds)
  unfolding mark_all
  mark_all-Keeps [] = search keeps
  mark_all-Keeps (d ∷ ds) =
      Keeps-bind _ _ (maybe_mark_offline-Keeps d) λ doc. search (keeps, mark_all-Keeps ds)

  pub list_nodes-Keeps : (enabled : Option Bool) → Keeps P (list_nodes env enabled)
  unfolding list_nodes
  list_nodes-Keeps enabled = search (keeps, mark_all-Keeps) depth 12

  pub get_node-Keeps : (k : String) → Keeps P (get_node env k)
  unfolding get_node ensure_exists
  get_node-Keeps k = search (keeps, maybe_mark_offline-Keeps) depth 12

  pub record_heartbeat-Keeps :
      (k : String) (ip : Option String) → Keeps P (record_heartbeat env k ip)
  unfolding record_heartbeat ensure_exists read_back
  record_heartbeat-Keeps k ip = search keeps depth 12
