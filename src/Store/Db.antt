-- ===== src/Store/Db.antt =====
-- The state: the collections of the database (database.py), and what stands beside it. `clock` is
-- the time that `now_utc` reads. `outages` says of the driver calls to come, in their order,
-- which raise; after its end none does. Each trained model is a file and the cached copy of it.
use trust_aware_self_healing.Shared.{ℕ, String, Bool, Option, List}
use trust_aware_self_healing.Floats.{Floats}
use trust_aware_self_healing.Mongo.{Mongo}
use trust_aware_self_healing.Security.{Security}
use trust_aware_self_healing.Models.{
  Sensor, SensorHealth, Reading, Prediction, TrustedReading, FaultEvent, Actuator, ActuatorEvent,
  AutomationRule, Node, NodeCommand, SystemSettings, ActuatorCommand, User, ResetToken,
}

-- What the development takes from outside: the numbers, the database driver, and the libraries behind
-- authentication.
pub record Env : Type 1 where
  pub floats : Floats
  pub mongo : Mongo
  pub security : Security

-- The labels of `IsolationForest.predict`: 1 and -1.
pub data Label : Type 0 where
  inlier outlier : Label

-- A trained model of sklearn, on one row of features; `none` where the call raises.
pub record Detector (F : Type 0) : Type 0 where
  pub decision_function : List F → Option F
  pub predict : List F → Option Label

pub record Regressor (F : Type 0) : Type 0 where
  pub predict : List F → Option F

-- A model file: its modification time, and the model in it (`none`: `joblib.load` raises).
pub record ModelFile (M : Type 0) : Type 0 where
  pub mtime : ℕ
  pub content : Option M

-- The file, if there is one, and `_model_cache`: the model with the `mtime` of its file.
pub record ModelSlot (M : Type 0) : Type 0 where
  pub file : Option (ModelFile M)
  pub cache : Option (M × ℕ)

-- One HTTP request that was sent to a node.
pub record Push : Type 0 where
  pub ip_address : String
  pub actuator_id : String
  pub command : ActuatorCommand
  pub command_id : ℕ

pub record Db (F : Type 0) (Coll : Type 0 → Type 0) : Type 0 where
  pub sensors : Coll (Sensor F)
  pub sensor_health : Coll (SensorHealth F)
  pub sensor_readings : Coll (Reading F)
  pub predictions : Coll (Prediction F)
  pub trusted_readings : Coll (TrustedReading F)
  pub fault_events : Coll (FaultEvent F)
  pub actuators : Coll Actuator
  pub actuator_events : Coll (ActuatorEvent F)
  pub automation_rules : Coll (AutomationRule F)
  pub nodes : Coll Node
  pub node_commands : Coll NodeCommand
  pub system_settings : Coll (SystemSettings F)
  pub users : Coll User
  pub password_reset_tokens : Coll ResetToken
  pub next_id : ℕ
  pub clock : ℕ
  pub outages : List Bool
  pub detector : ModelSlot (Detector F)
  pub regressor : ModelSlot (Regressor F)
  pub pushes : List Push

abbrev pub State : Env → Type 0
State env = Db env.floats.F env.mongo.Coll

-- A collection of the state.
pub record Table (env : Env) (D : Type 0) : Type 0 where
  pub get : State env → env.mongo.Coll D
  pub put : env.mongo.Coll D → State env → State env

module _ (env : Env) where
  open env use {floats.{F}}

  abbrev pub sensors : Table env (Sensor F)
  sensors = record { get = λ s. s.sensors; put = λ c s. record s { sensors = c } }

  abbrev pub sensor_health : Table env (SensorHealth F)
  sensor_health = record { get = λ s. s.sensor_health; put = λ c s. record s { sensor_health = c } }

  abbrev pub sensor_readings : Table env (Reading F)
  sensor_readings = record {
    get = λ s. s.sensor_readings;
    put = λ c s. record s { sensor_readings = c };
  }

  abbrev pub predictions : Table env (Prediction F)
  predictions = record { get = λ s. s.predictions; put = λ c s. record s { predictions = c } }

  abbrev pub trusted_readings : Table env (TrustedReading F)
  trusted_readings = record {
    get = λ s. s.trusted_readings;
    put = λ c s. record s { trusted_readings = c };
  }

  abbrev pub fault_events : Table env (FaultEvent F)
  fault_events = record { get = λ s. s.fault_events; put = λ c s. record s { fault_events = c } }

  abbrev pub actuators : Table env Actuator
  actuators = record { get = λ s. s.actuators; put = λ c s. record s { actuators = c } }

  abbrev pub actuator_events : Table env (ActuatorEvent F)
  actuator_events = record {
    get = λ s. s.actuator_events;
    put = λ c s. record s { actuator_events = c };
  }

  abbrev pub automation_rules : Table env (AutomationRule F)
  automation_rules = record {
    get = λ s. s.automation_rules;
    put = λ c s. record s { automation_rules = c };
  }

  abbrev pub nodes : Table env Node
  nodes = record { get = λ s. s.nodes; put = λ c s. record s { nodes = c } }

  abbrev pub node_commands : Table env NodeCommand
  node_commands = record { get = λ s. s.node_commands; put = λ c s. record s { node_commands = c } }

  abbrev pub system_settings : Table env (SystemSettings F)
  system_settings = record {
    get = λ s. s.system_settings;
    put = λ c s. record s { system_settings = c };
  }

  abbrev pub users : Table env User
  users = record { get = λ s. s.users; put = λ c s. record s { users = c } }

  abbrev pub password_reset_tokens : Table env ResetToken
  password_reset_tokens = record {
    get = λ s. s.password_reset_tokens;
    put = λ c s. record s { password_reset_tokens = c };
  }
