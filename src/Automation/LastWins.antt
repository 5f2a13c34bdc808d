-- ===== src/Automation/LastWins.antt =====
-- services/automation.py: the commands that a list of rules comes to, by actuator.
use trust_aware_self_healing.Shared.{
  ◌≡◌, refl, sym, ◌∙◌, Option, none, some, List, [], ◌∷◌, String, str_eq, eq_iff, arith,
  if◌then◌else◌,
}
use trust_aware_self_healing.Floats.{Floats}
use trust_aware_self_healing.Models.{AutomationRule, RuleAction}
use trust_aware_self_healing.Store.Run.{Result, ok, err}
use trust_aware_self_healing.Automation.Rules.{
  Command, set_command, lookup_command, desired_command_for_rule, add_desired, collect,
}

lookup-set_command :
    (k : String) (c : Command) (ds : List Command)
    → lookup_command k (set_command c ds)
      ≡ (if str_eq c.actuator_id k then some c else lookup_command k ds)
unfolding lookup_command set_command
lookup-set_command k c [] = refl
lookup-set_command k c (d ∷ ds) = ground (
  arith,
  eq_iff c.actuator_id k,
  eq_iff d.actuator_id k,
  eq_iff d.actuator_id c.actuator_id,
  lookup-set_command k c ds,
)

-- The command that one rule wants for actuator k, if it wants one.
abbrev pub wish :
    {F : Type 0} → String → AutomationRule F → Result (Option RuleAction) → Option Command
wish k rule (ok (some desired)) =
    if str_eq rule.actuator_id k
    then some (record { actuator_id = rule.actuator_id; desired = desired; rule_id = rule.rule_id })
    else none
wish k rule _ = none

abbrev pub otherwise : Option Command → Option Command → Option Command
otherwise none b = b
otherwise (some c) b = some c

otherwise_assoc :
    (a b c : Option Command) → otherwise (otherwise a b) c ≡ otherwise a (otherwise b c)
otherwise_assoc none b c = refl
otherwise_assoc (some x) b c = refl

-- No two commands for one actuator.
abbrev pub Distinct : List Command → Type 0
Distinct [] = Unit
Distinct (c ∷ cs) = (lookup_command c.actuator_id cs ≡ none) × Distinct cs

set_command-Distinct : (c : Command) (ds : List Command) → Distinct ds → Distinct (set_command c ds)
unfolding set_command lookup_command
set_command-Distinct c [] h = (refl, tt)
set_command-Distinct c (d ∷ ds) h = ground (
  arith,
  eq_iff d.actuator_id c.actuator_id,
  eq_iff c.actuator_id d.actuator_id,
  set_command-Distinct c ds h.1,
  lookup-set_command d.actuator_id c ds,
)

module _ (fl : Floats) where
  open fl use {F}

  -- The wish of the last rule that has one, read from the end of the list.
  abbrev pub last_wish : String → F → List (AutomationRule F) → Option Command
  last_wish k v [] = none
  last_wish k v (rule ∷ rules) =
      otherwise (last_wish k v rules) (wish k rule (desired_command_for_rule fl rule v))

  lookup-add_desired :
      (k : String) (rule : AutomationRule F) (r : Result (Option RuleAction)) (acc : List Command)
      → lookup_command k (add_desired fl rule r acc)
        ≡ otherwise (wish k rule r) (lookup_command k acc)
  lookup-add_desired k rule (ok (some desired)) acc = lookup-set_command k _ acc ∙ ground arith
  lookup-add_desired k rule (ok none) acc = refl
  lookup-add_desired k rule (err e) acc = refl

  lookup-collect_acc :
      (k : String) (v : F) (rules : List (AutomationRule F)) (acc : List Command)
      → lookup_command k (collect fl v rules acc)
        ≡ otherwise (last_wish k v rules) (lookup_command k acc)
  unfolding collect
  lookup-collect_acc k v [] acc = refl
  lookup-collect_acc k v (rule ∷ rules) acc =
      let r = desired_command_for_rule fl rule v in
      lookup-collect_acc k v rules (add_desired fl rule r acc)
      ∙ (rw (lookup-add_desired k rule r acc)
          (sym (otherwise_assoc (last_wish k v rules) (wish k rule r) (lookup_command k acc))))

  collect-Distinct_acc :
      (v : F) (rules : List (AutomationRule F)) (acc : List Command)
      → Distinct acc
      → Distinct (collect fl v rules acc)
  unfolding collect
  collect-Distinct_acc v [] acc h = h
  collect-Distinct_acc v (rule ∷ rules) acc h =
      collect-Distinct_acc v rules _ (keeps (desired_command_for_rule fl rule v))
    where
      keeps : (r : Result _) → Distinct (add_desired fl rule r acc)
      keeps (ok (some desired)) = set_command-Distinct _ acc h
      keeps (ok none) = h
      keeps (err e) = h

  -- Every actuator is given at most one command, and it is the one that the last rule wants which
  -- targets the actuator and wants a change; rules that raise count for nothing.
  pub lookup-collect :
      (k : String) (v : F) (rules : List (AutomationRule F))
      → (lookup_command k (collect fl v rules []) ≡ last_wish k v rules)
        × Distinct (collect fl v rules [])
  lookup-collect k v rules = (
    lookup-collect_acc k v rules [] ∙ no_more (last_wish k v rules),
    collect-Distinct_acc v rules [] tt,
  )
    where
      no_more : (o : Option Command) → otherwise o (lookup_command k []) ≡ o
      no_more none = unfold lookup_command in refl
      no_more (some c) = refl
