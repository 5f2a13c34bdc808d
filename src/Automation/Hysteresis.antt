-- ===== src/Automation/Hysteresis.antt =====
-- services/automation.py: what one rule wants, by zones of the trusted value.
use trust_aware_self_healing.Shared.{
  ◌≡◌, refl, Bool, true, Option, none, some, List, [], ◌∷◌, arith, All, if◌then◌else◌,
}
use trust_aware_self_healing.Floats.{Floats, IsOrdered, ltb}
use trust_aware_self_healing.Models.{
  AutomationRule, RuleAction, ActuatorState, greater_than_or_equal, less_than_or_equal,
}
use trust_aware_self_healing.Store.Run.{Result, ok, err}
use trust_aware_self_healing.Automation.Rules.{check, desired_command_for_rule, opposite_action}

module _ (fl : Floats) (laws : IsOrdered fl) where
  open fl use {F, leb}
  open laws use {le_refl, le_trans, le_total}

  module _ (rule : AutomationRule F) (reset : F) (back : RuleAction)
      (has_reset : rule.reset_threshold ≡ some reset)
      (has_back : rule.reset_action ≡ some back) where
    -- With ordered numbers: a rule "at or above the threshold", with a reset action and a reset
    -- threshold below the threshold, commands the reset action at or below the reset threshold, its
    -- action at or above the threshold, and nothing between, in whichever order the two tests are made.
    pub zones_upward :
        (v : F)
        → rule.condition ≡ greater_than_or_equal
        → ltb fl reset rule.threshold ≡ true
        → desired_command_for_rule fl rule v
          ≡ ok (
              if leb v reset
              then some back
              else if leb rule.threshold v
              then some rule.action
              else none)
    unfolding desired_command_for_rule
    zones_upward v is_ge apart = ground (arith, le_trans rule.threshold v reset)

    -- With ordered numbers: a rule "at or below the threshold", with a reset action and a reset
    -- threshold above the threshold, commands the reset action at or above the reset threshold, its
    -- action at or below the threshold, and nothing between, in whichever order the two tests are made.
    pub zones_downward :
        (v : F)
        → rule.condition ≡ less_than_or_equal
        → ltb fl rule.threshold reset ≡ true
        → desired_command_for_rule fl rule v
          ≡ ok (
              if leb reset v
              then some back
              else if leb v rule.threshold
              then some rule.action
              else none)
    unfolding desired_command_for_rule
    zones_downward v is_le apart = ground (arith, le_trans reset v rule.threshold)

  -- The state of an enabled actuator in AUTO mode after one value: no command and an exception leave
  -- it.
  abbrev pub settle : Result (Option RuleAction) → ActuatorState → ActuatorState
  settle (ok (some desired)) state = desired
  settle (ok none) state = state
  settle (err e) state = state

  abbrev pub settle_all : AutomationRule F → List F → ActuatorState → ActuatorState
  settle_all rule [] state = state
  settle_all rule (v ∷ vs) state =
      settle_all rule vs (settle (desired_command_for_rule fl rule v) state)

  settle-above :
      (rule : AutomationRule F) (reset v : F) (back : RuleAction)
      → rule.reset_threshold ≡ some reset
      → rule.reset_action ≡ some back
      → rule.condition ≡ greater_than_or_equal
      → ltb fl reset v ≡ true
      → settle (desired_command_for_rule fl rule v) rule.action ≡ rule.action
  unfolding desired_command_for_rule
  settle-above rule reset v back has_reset has_back is_ge above = ground arith

  -- No flapping: once the action of a rule "at or above the threshold" with a reset threshold and a
  -- reset action is in force, it stays in force over any run of trusted values that all lie above the
  -- reset threshold, however they cross the threshold.
  pub settle_all-stays :
      (rule : AutomationRule F) (reset : F) (back : RuleAction) (vs : List F)
      → rule.reset_threshold ≡ some reset
      → rule.reset_action ≡ some back
      → rule.condition ≡ greater_than_or_equal
      → All (λ v. ltb fl reset v ≡ true) vs
      → settle_all rule vs rule.action ≡ rule.action
  settle_all-stays rule reset back [] has_reset has_back is_ge above = refl
  settle_all-stays rule reset back (v ∷ vs) has_reset has_back is_ge (above, rest) =
      rw (settle-above rule reset v back has_reset has_back is_ge above)
        (settle_all-stays rule reset back vs has_reset has_back is_ge rest)

  -- A rule with a known condition and no reset threshold follows its condition: every value commands
  -- the action or its opposite, by whether the condition holds.
  pub tracks_condition :
      (rule : AutomationRule F) (v : F) (holds : Bool)
      → rule.reset_threshold ≡ none
      → check fl rule.condition v rule.threshold ≡ ok holds
      → desired_command_for_rule fl rule v
        ≡ ok (some (if holds then rule.action else opposite_action rule.action))
  unfolding desired_command_for_rule
  tracks_condition rule v holds no_reset checked = ground arith
