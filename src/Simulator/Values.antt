-- ===== src/Simulator/Values.antt =====
-- simulator/simulator.py: the values, from a sensor's own range. The draws from `rng` are arguments.
use trust_aware_self_healing.Shared.{
  Bool, true, ◌≡◌, Option, none, some, List, [], ◌∷◌, String, str_eq, or_else, if◌then◌else◌,
}
use trust_aware_self_healing.Floats.{Floats, IsOrdered, of_ℕ, ltb, max, min}
use trust_aware_self_healing.Floats.Order.{le-max_left, max-le, min-le_left}
use trust_aware_self_healing.Models.{Sensor}

pub data SimulatedFault : Type 0 where
  spike stuck drift : SimulatedFault

-- What `rng` gives for one reading, whichever of it is asked for: `gauss`, `random`, `choice` of the
-- faults, whether `choice([-1, 1])` is 1, and `uniform`.
pub record Roll (F : Type 0) : Type 0 where
  pub gauss : F → F → F
  pub random : F
  pub fault : SimulatedFault
  pub up : Bool
  pub uniform : F → F → F

-- `_last_values`: the newest entry of a sensor counts.
abbrev pub last_value : {F : Type 0} → String → List (String × F) → Option F
last_value sensor_id [] = none
last_value sensor_id ((k, value) ∷ rest) =
    let older = last_value sensor_id rest in if str_eq k sensor_id then some value else older

module _ (fl : Floats) where
  open fl use {F, leb, add, sub, mul, div}

  abbrev pub span : Sensor F → F
  span d = if ltb fl d.normal_min d.normal_max then sub d.normal_max d.normal_min else of_ℕ fl 1

  -- `lo - span * 0.02` and `hi + span * 0.02`
  abbrev pub lowest : Sensor F → F
  lowest d = sub d.normal_min (mul (span d) (fl.literal 2 2))

  abbrev pub highest : Sensor F → F
  highest d = add d.normal_max (mul (span d) (fl.literal 2 2))

  -- Before rounding.
  unfoldable pub clamped_value : Roll F → Sensor F → F
  clamped_value roll d = max fl (lowest d) (
      min fl (highest d)
        (roll.gauss (div (add d.normal_min d.normal_max) (of_ℕ fl 2)) (div (span d) (of_ℕ fl 6))))

  unfoldable pub generate_plausible_value : Roll F → Sensor F → F
  unfolding clamped_value
  generate_plausible_value roll d = fl.round (clamped_value roll d) 3

  -- `base + direction * amount`
  abbrev toward : Bool → F → F → F
  toward up base amount = if up then add base amount else sub base amount

  unfoldable pub faulty_value : Roll F → Sensor F → F → Option F → SimulatedFault → F
  faulty_value roll d base_value last spike =
      toward roll.up (if roll.up then d.normal_max else d.normal_min)
        (mul (span d) (roll.uniform (fl.literal 5 1) (of_ℕ fl 2)))
  faulty_value roll d base_value last stuck = or_else last base_value
  faulty_value roll d base_value last drift =
      toward roll.up base_value (mul (span d) (roll.uniform (fl.literal 3 1) (fl.literal 8 1)))

  unfoldable pub inject_fault : Roll F → Sensor F → F → List (String × F) → F × SimulatedFault
  unfolding faulty_value
  inject_fault roll d base_value last_values = (
    fl.round (faulty_value roll d base_value (last_value d.sensor_id last_values) roll.fault) 3,
    roll.fault,
  )

  -- With ordered numbers: whatever the generator draws, a plausible value lies, before it is rounded,
  -- within 2% of the span around the sensor's range, where these two ends are in order.
  pub clamped_value-InRange :
      (laws : IsOrdered fl) (roll : Roll F) (d : Sensor F)
      → leb (lowest d) (highest d) ≡ true
      → (leb (lowest d) (clamped_value roll d) ≡ true)
        × (leb (clamped_value roll d) (highest d) ≡ true)
  unfolding clamped_value
  clamped_value-InRange laws roll d h =
      (le-max_left fl laws _ _, max-le fl laws _ _ _ h (min-le_left fl laws _ _))
