-- ===== src/Api/Schemas.antt =====
-- The checks of the pydantic models of models/*.py, on a body and on what is sent back. The shape
-- (types, enumerations, e-mail addresses) is checked by the types here.
use Prim.Native.String.{count}
use trust_aware_self_healing.Shared.{
  ℕ, String, Bool, true, false, ◌&&◌, Option, none, some, List, [], ◌∷◌, leb as leb_ℕ,
}
use trust_aware_self_healing.Floats.{Floats, of_ℕ, ltb}
use trust_aware_self_healing.Models.{
  Sensor, SensorHealth, FaultEvent, Reading, Actuator, Node, AutomationRule, RuleCondition,
  SensorReadingCreate, SensorCreate, SensorUpdate, SettingsUpdate, ActuatorCreate, ActuatorUpdate,
  NodeCreate, NodeUpdate, AutomationRuleCreate, AutomationRuleUpdate, UserRegister,
}

abbrev pub optional : {A : Type 0} → (A → Bool) → Option A → Bool
optional p none = true
optional p (some a) = p a

-- `Field(min_length=m, max_length=n)`
abbrev pub has_length : ℕ → ℕ → String → Bool
has_length m n s = leb_ℕ m (count s) && leb_ℕ (count s) n

-- `Field(ge=m, le=n)` on an int
abbrev pub is_between : ℕ → ℕ → ℕ → Bool
is_between m n k = leb_ℕ m k && leb_ℕ k n

module _ (fl : Floats) where
  open fl use {F, leb}

  -- `Field(ge=0, le=100)` on a float
  abbrev pub is_percent : F → Bool
  is_percent x = leb (of_ℕ fl 0) x && leb x (of_ℕ fl 100)

  -- The base class with the validator `max_must_exceed_min`.
  abbrev pub sensor_base : String → String → String → String → F → F → ℕ → Bool
  sensor_base sensor_id name unit location normal_min normal_max interval =
      has_length 1 64 sensor_id
      && has_length 1 128 name
      && has_length 1 16 unit
      && has_length 1 128 location
      && ltb fl normal_min normal_max
      && is_between 1 3600 interval

  abbrev pub sensor_create_valid : SensorCreate F → Bool
  sensor_create_valid d =
      sensor_base d.sensor_id d.name d.unit d.location d.normal_min d.normal_max
        d.sampling_interval_seconds

  abbrev pub sensor_response_valid : Sensor F → Bool
  sensor_response_valid d =
      sensor_base d.sensor_id d.name d.unit d.location d.normal_min d.normal_max
        d.sampling_interval_seconds
      && is_percent d.trust_score

  abbrev pub sensor_update_valid : SensorUpdate F → Bool
  sensor_update_valid u =
      optional (has_length 1 128) u.name
      && optional (has_length 1 16) u.unit
      && optional (has_length 1 128) u.location
      && optional (is_between 1 3600) u.sampling_interval_seconds

  abbrev pub settings_update_valid : SettingsUpdate F → Bool
  settings_update_valid u =
      optional is_percent u.fault_penalty
      && optional is_percent u.recovery_gain
      && optional is_percent u.faulty_threshold
      && optional is_percent u.healthy_threshold
      && optional is_percent u.trust_max
      && optional is_percent u.trust_min

  abbrev pub fault_event_response_valid : FaultEvent F → Bool
  fault_event_response_valid e = is_percent e.trust_score

  abbrev pub health_response_valid : SensorHealth F → Bool
  health_response_valid h = is_percent h.trust_score

abbrev pub actuator_create_valid : ActuatorCreate → Bool
actuator_create_valid d =
    has_length 1 64 d.actuator_id && has_length 1 128 d.name && has_length 1 128 d.location

abbrev pub actuator_update_valid : ActuatorUpdate → Bool
actuator_update_valid u =
    optional (has_length 1 128) u.name && optional (has_length 1 128) u.location

abbrev pub node_create_valid : NodeCreate → Bool
node_create_valid d =
    has_length 1 64 d.node_id && has_length 1 128 d.name && has_length 1 128 d.location

abbrev pub node_update_valid : NodeUpdate → Bool
node_update_valid u = optional (has_length 1 128) u.name && optional (has_length 1 128) u.location

-- A member of the enumeration.
abbrev pub condition_valid : RuleCondition → Bool
condition_valid (RuleCondition.unknown other) = false
condition_valid _ = true

abbrev pub rule_create_valid : {F : Type 0} → AutomationRuleCreate F → Bool
rule_create_valid d =
    has_length 1 64 d.rule_id && has_length 1 128 d.name && condition_valid d.condition

abbrev pub rule_update_valid : {F : Type 0} → AutomationRuleUpdate F → Bool
rule_update_valid u = optional (has_length 1 128) u.name && optional condition_valid u.condition

abbrev pub actuator_response_valid : Actuator → Bool
actuator_response_valid d =
    has_length 1 64 d.actuator_id && has_length 1 128 d.name && has_length 1 128 d.location

abbrev pub node_response_valid : Node → Bool
node_response_valid d =
    has_length 1 64 d.node_id && has_length 1 128 d.name && has_length 1 128 d.location

abbrev pub rule_response_valid : {F : Type 0} → AutomationRule F → Bool
rule_response_valid d =
    has_length 1 64 d.rule_id && has_length 1 128 d.name && condition_valid d.condition

abbrev pub reading_create_valid : {F : Type 0} → SensorReadingCreate F → Bool
reading_create_valid d = has_length 1 64 d.sensor_id

abbrev pub reading_response_valid : {F : Type 0} → Reading F → Bool
reading_response_valid d = has_length 1 64 d.sensor_id

-- A list response, item by item.
abbrev pub every : {A : Type 0} → (A → Bool) → List A → Bool
every p [] = true
every p (a ∷ rest) = p a && every p rest

abbrev pub user_register_valid : UserRegister → Bool
user_register_valid d = has_length 1 128 d.full_name && has_length 8 128 d.password

-- `Query(default=100, ge=1, le=1000)`
abbrev pub limit_valid : ℕ → Bool
limit_valid n = is_between 1 1000 n
