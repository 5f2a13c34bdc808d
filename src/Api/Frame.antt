-- ===== src/Api/Frame.antt =====
-- What a request keeps. Most collections are written by a few handlers and looked at by no invariant of
-- the trust scores, of the raw readings or of the accounts: those are the peripheral ones.
pub mod Devices
pub mod Reads
pub mod Pipeline
pub mod Accounts
pub mod Sensors
pub mod All
use trust_aware_self_healing.Store.Db.{
  Env, State, Detector, Regressor, ModelSlot, Push, actuators, actuator_events, automation_rules,
  nodes, node_commands, predictions, trusted_readings,
}
use trust_aware_self_healing.Shared.{List}
use trust_aware_self_healing.Store.Keeps.{IsStable}
use trust_aware_self_healing.Store.Frame.{IsFree}

module _ (env : Env) (P : State env → Type 0) where
  open env use {floats.{F}}

  -- The property looks at none of the peripheral collections, nor at the model caches or the pushes.
  pub record IsPeripheral : Type 0 where
    pub stable : IsStable env P
    pub actuator : IsFree env P (actuators env)
    pub actuator_event : IsFree env P (actuator_events env)
    pub rule : IsFree env P (automation_rules env)
    pub node : IsFree env P (nodes env)
    pub node_command : IsFree env P (node_commands env)
    pub prediction : IsFree env P (predictions env)
    pub trusted_reading : IsFree env P (trusted_readings env)
    pub detector :
        (s : State env) (m : ModelSlot (Detector F)) → P s → P (record s { detector = m })
    pub regressor :
        (s : State env) (m : ModelSlot (Regressor F)) → P s → P (record s { regressor = m })
    pub push : (s : State env) (p : List Push) → P s → P (record s { pushes = p })
