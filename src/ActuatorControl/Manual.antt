-- ===== src/ActuatorControl/Manual.antt =====
-- services/actuator.py: the actuators that automation may not act on.
use trust_aware_self_healing.Shared.{
  ◌≡◌, Bool, true, false, not, ◌&&◌, String, str_eq, eq_iff, arith,
}
use trust_aware_self_healing.Models.{Actuator, ActuatorMode, ActuatorState, mode_eq}
use trust_aware_self_healing.ActuatorControl.{accepts}

-- May automation not act on it at all?
abbrev pub is_held : Actuator → Bool
is_held d = not (d.enabled && mode_eq d.mode ActuatorMode.auto)

pub held-not_accepted :
    (d : Actuator) (desired : ActuatorState) → is_held d ≡ true → accepts d desired ≡ false
unfolding accepts
held-not_accepted d desired h = ground arith

-- Two ids that differ are not both those of one actuator.
pub ids_differ :
    (i k : String) (d : Actuator)
    → str_eq i k ≡ false
    → str_eq d.actuator_id i ≡ true
    → str_eq d.actuator_id k ≡ false
ids_differ i k d n h = ground (arith, eq_iff i k, eq_iff d.actuator_id i, eq_iff d.actuator_id k)
