-- ===== src/FaultInjection.antt =====
-- services/fault_injection_service.py: a corrupted value, posted through the whole pipeline.
use trust_aware_self_healing.Shared.{
  Bool, true, false, Option, none, some, String, str_eq, or_else, map_option, if◌then◌else◌,
}
use trust_aware_self_healing.Floats.{Floats, of_ℕ, ltb, abs}
use trust_aware_self_healing.Models.{
  Sensor, Reading, FaultType, spike, sudden_offset, stuck, frozen, drift, missing, communication,
}
use trust_aware_self_healing.Store.Run.{Run, pure, ◌>>=◌}
use trust_aware_self_healing.Store.Db.{Env, State, sensors, sensor_readings}
use trust_aware_self_healing.Listing.{newest_first, find_newest}
use trust_aware_self_healing.Validators.{ensure_exists}
use trust_aware_self_healing.ReadingService.{create_reading}

-- What `_rng` gives in one call: `choice([-1, 1])` is 1, and the value of `uniform(a, b)`.
pub record Draw (F : Type 0) : Type 0 where
  pub up : Bool
  pub fraction : F → F → F

module _ (fl : Floats) where
  open fl use {F, add, sub, mul, div}

  -- `base + direction * abs(magnitude)`
  abbrev shifted : F → Bool → F → F
  shifted base up magnitude =
      if up then add base (abs fl magnitude) else sub base (abs fl magnitude)

  abbrev magnitude : Option F → F → F → F
  magnitude offset span fraction = or_else offset (mul span fraction)

  abbrev sensor_span : Sensor F → F
  sensor_span d =
      if ltb fl d.normal_min d.normal_max then sub d.normal_max d.normal_min else of_ℕ fl 1

  abbrev midpoint : Sensor F → F
  midpoint d = div (add d.normal_min d.normal_max) (of_ℕ fl 2)

  -- Before rounding; `last` is `_last_known_value`.
  unfoldable pub fault_value : Draw F → Sensor F → Option F → FaultType → Option F → F
  fault_value draw d last spike offset =
      shifted (if draw.up then d.normal_max else d.normal_min) draw.up
        (magnitude offset (sensor_span d) (draw.fraction (fl.literal 5 1) (of_ℕ fl 2)))
  fault_value draw d last sudden_offset offset =
      shifted (midpoint d) draw.up
        (magnitude offset (sensor_span d) (draw.fraction (fl.literal 15 2) (fl.literal 35 2)))
  fault_value draw d last stuck offset = or_else last (midpoint d)
  fault_value draw d last frozen offset = or_else last (midpoint d)
  fault_value draw d last drift offset =
      shifted (midpoint d) draw.up
        (magnitude offset (sensor_span d) (draw.fraction (fl.literal 3 1) (fl.literal 8 1)))
  -- the last branch of the source, which `inject_fault` does not reach with MISSING
  fault_value draw d last missing offset = or_else offset (sub (of_ℕ fl 0) (of_ℕ fl 999))
  fault_value draw d last communication offset = or_else offset (sub (of_ℕ fl 0) (of_ℕ fl 999))

  unfoldable pub generate_fault_value : Draw F → Sensor F → Option F → FaultType → Option F → F
  unfolding fault_value
  generate_fault_value draw d last fault_type offset =
      fl.round (fault_value draw d last fault_type offset) 3

module _ (env : Env) where
  open env use {floats.{F}}

  abbrev reading_order : Reading F → Reading F → Bool
  reading_order d e = newest_first d.timestamp d.id e.timestamp e.id

  unfoldable pub post_fault :
      Draw F → Sensor F → String → FaultType → Option F → Run (State env) (Option (F × Reading F))
  post_fault draw sensor sensor_id fault_type offset = do
    last ← find_newest env (sensor_readings env) (λ d. str_eq d.sensor_id sensor_id) reading_order
    let value =
        generate_fault_value env.floats draw sensor (map_option (λ (d : Reading F). d.value) last)
          fault_type offset
    reading ← create_reading env (record { sensor_id = sensor_id; value = value; timestamp = none })
    pure (some (value, reading))

  abbrev is_missing : FaultType → Bool
  is_missing missing = true
  is_missing _ = false

  -- The value and the reading, or none for MISSING, which posts nothing; the note is left out.
  unfoldable pub inject_fault :
      Draw F → String → FaultType → Option F → Run (State env) (Option (F × Reading F))
  inject_fault draw sensor_id fault_type offset = do
    sensor ← ensure_exists env (sensors env) (λ d. str_eq d.sensor_id sensor_id)
    (if is_missing fault_type
        then pure none
        else post_fault draw sensor sensor_id fault_type offset)
