-- ===== src/Api/Handlers/AutomationRules.antt =====
-- routes/automation_rules.py.
use trust_aware_self_healing.Shared.{Bool, String, Option}
use trust_aware_self_healing.Store.Run.{Run}
use trust_aware_self_healing.Store.Db.{Env, State}
use trust_aware_self_healing.AutomationRuleService
use trust_aware_self_healing.Api.Bodies.{Body, map_result}
use trust_aware_self_healing.Models.{AutomationRuleCreate, AutomationRuleUpdate}

module _ (env : Env) where
  open env use {floats.{F}, security.{read_id, jwt_expire_minutes}}

  abbrev pub create_rule : AutomationRuleCreate F → Run (State env) (Body F)
  create_rule payload = map_result Body.one_rule (AutomationRuleService.create_rule env payload)

  abbrev pub list_rules : Option String → Option String → Option Bool → Run (State env) (Body F)
  list_rules sensor_id actuator_id enabled =
      map_result Body.rules (AutomationRuleService.list_rules env sensor_id actuator_id enabled)

  abbrev pub get_rule : String → Run (State env) (Body F)
  get_rule k = map_result Body.one_rule (AutomationRuleService.get_rule env k)

  abbrev pub update_rule : String → AutomationRuleUpdate F → Run (State env) (Body F)
  update_rule k payload = map_result Body.one_rule (AutomationRuleService.update_rule env k payload)

  abbrev pub delete_rule : String → Run (State env) (Body F)
  delete_rule k = map_result (λ u. Body.done) (AutomationRuleService.delete_rule env k)
