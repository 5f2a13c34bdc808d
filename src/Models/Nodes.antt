-- ===== src/Models/Nodes.antt =====
-- models/node.py and models/node_command.py.
use trust_aware_self_healing.Shared.{ℕ, String, Bool, true, false, Option}
use trust_aware_self_healing.Models.Actuators.{ActuatorCommand}

pub data NodeStatus : Type 0 where
  online offline unknown : NodeStatus

pub record Node : Type 0 where
  pub node_id : String
  pub name : String
  pub location : String
  pub ip_address : Option String
  pub enabled : Bool
  pub status : NodeStatus
  pub last_seen : Option ℕ
  pub created_at : ℕ
  pub updated_at : ℕ

pub data NodeCommandStatus : Type 0 where
  pending acked : NodeCommandStatus

abbrev pub is_pending : NodeCommandStatus → Bool
is_pending pending = true
is_pending acked = false

pub record NodeCommand : Type 0 where
  pub id : ℕ
  pub node_id : String
  pub actuator_id : String
  pub command : ActuatorCommand
  pub status : NodeCommandStatus
  pub created_at : ℕ
  pub acked_at : Option ℕ

pub record NodeCreate : Type 0 where
  pub node_id : String
  pub name : String
  pub location : String
  pub ip_address : Option String
  pub enabled : Bool

pub record NodeUpdate : Type 0 where
  pub name : Option String
  pub location : Option String
  pub ip_address : Option String
  pub enabled : Option Bool
