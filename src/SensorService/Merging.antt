-- ===== src/SensorService/Merging.antt =====
-- services/sensor_service.py: `update_sensor`, what becomes of each field of a sensor.
use trust_aware_self_healing.Shared.{
  ℕ, ◌≡◌, refl, false, Option, none, some, or_else, set_if_given, is_some, String, arith,
  Bool-cases, inl, inr,
}
use trust_aware_self_healing.Mongo.{IsMongo}
use trust_aware_self_healing.Models.{Sensor, SensorUpdate}
use trust_aware_self_healing.Store.Db.{Env}
use trust_aware_self_healing.SensorService.{has_changes}
use trust_aware_self_healing.SensorService.Registration.{updated}

abbrev pub given {ℓ} : {A : Type ℓ} → Option A → A → A
given none x = x
given (some a) x = a

abbrev pub given_node : Option String → Option String → Option String
given_node none x = x
given_node (some a) x = some a

-- A sensor with the fields that are given, and the others as they were.
pub record IsMerged {F : Type 0} (u : SensorUpdate F) (d e : Sensor F) : Type 0 where
  pub sensor_id : e.sensor_id ≡ d.sensor_id
  pub name : e.name ≡ given u.name d.name
  pub sensor_type : e.sensor_type ≡ given u.sensor_type d.sensor_type
  pub unit : e.unit ≡ given u.unit d.unit
  pub location : e.location ≡ given u.location d.location
  pub node_id : e.node_id ≡ given_node u.node_id d.node_id
  pub normal_min : e.normal_min ≡ given u.normal_min d.normal_min
  pub normal_max : e.normal_max ≡ given u.normal_max d.normal_max
  pub sampling_interval_seconds :
      e.sampling_interval_seconds ≡ given u.sampling_interval_seconds d.sampling_interval_seconds
  pub enabled : e.enabled ≡ given u.enabled d.enabled
  pub status : e.status ≡ d.status
  pub trust_score : e.trust_score ≡ d.trust_score
  pub created_at : e.created_at ≡ d.created_at

given_lem {ℓ} : {A : Type ℓ} (o : Option A) (x : A) → or_else o x ≡ given o x
given_lem none x = refl
given_lem (some a) x = refl

node_lem : (o x : Option String) → set_if_given o x ≡ given_node o x
node_lem none x = refl
node_lem (some a) x = refl

missing {ℓ} : {A : Type ℓ} (o : Option A) (x : A) → is_some o ≡ false → x ≡ given o x
missing none x h = refl
missing (some a) x h = cc

missing_node : (o x : Option String) → is_some o ≡ false → x ≡ given_node o x
missing_node none x h = refl
missing_node (some a) x h = cc

module _ (env : Env) (laws : IsMongo env.mongo) where
  open env use {floats.{F}}

  pub updated-IsMerged :
      (u : SensorUpdate F) (now : ℕ) (d : Sensor F) → IsMerged u d (updated env laws u now d)
  updated-IsMerged u now d = elim (Bool-cases (has_changes u)) [
    | inl some_given ↦ rw some_given (record {
      sensor_id = refl;
      name = given_lem u.name d.name;
      sensor_type = given_lem u.sensor_type d.sensor_type;
      unit = given_lem u.unit d.unit;
      location = given_lem u.location d.location;
      node_id = node_lem u.node_id d.node_id;
      normal_min = given_lem u.normal_min d.normal_min;
      normal_max = given_lem u.normal_max d.normal_max;
      sampling_interval_seconds = given_lem u.sampling_interval_seconds d.sampling_interval_seconds;
      enabled = given_lem u.enabled d.enabled;
      status = refl;
      trust_score = refl;
      created_at = refl;
    })
    | inr none_given ↦ rw none_given (record {
      sensor_id = refl;
      name = missing u.name d.name (ground arith);
      sensor_type = missing u.sensor_type d.sensor_type (ground arith);
      unit = missing u.unit d.unit (ground arith);
      location = missing u.location d.location (ground arith);
      node_id = missing_node u.node_id d.node_id (ground arith);
      normal_min = missing u.normal_min d.normal_min (ground arith);
      normal_max = missing u.normal_max d.normal_max (ground arith);
      sampling_interval_seconds =
          missing u.sampling_interval_seconds d.sampling_interval_seconds (ground arith);
      enabled = missing u.enabled d.enabled (ground arith);
      status = refl;
      trust_score = refl;
      created_at = refl;
    })
  ]
