-- ===== src/Api/Handlers/Actuators.antt =====
-- routes/actuators.py.
use trust_aware_self_healing.Shared.{map_option, Bool, true, false, String, Option}
use trust_aware_self_healing.Models.{ActuatorType, actuator_type_value, Actuator}
use trust_aware_self_healing.Store.Run.{Run, ◌>>=◌, ◌>>◌}
use trust_aware_self_healing.Store.Db.{Env, State, actuators}
use trust_aware_self_healing.Store.Driver.{now_utc, update_one}
use trust_aware_self_healing.ActuatorControl.{is_actuator}
use trust_aware_self_healing.ActuatorService
use trust_aware_self_healing.Api.Bodies.{Body, map_result}
use trust_aware_self_healing.Models.{ActuatorCreate, ActuatorUpdate, ActuatorCommand}

module _ (env : Env) where
  open env use {floats.{F}, security.{read_id, jwt_expire_minutes}}

  -- `enable_actuator` and `disable_actuator`
  unfoldable pub set_actuator_enabled : String → Bool → Run (State env) Actuator
  set_actuator_enabled actuator_id enabled = do
    now ← now_utc env
    update_one env (actuators env) (is_actuator actuator_id)
        (λ d. record d { enabled = enabled; updated_at = now })
    ActuatorService.get_actuator env actuator_id

  abbrev pub create_actuator : ActuatorCreate → Run (State env) (Body F)
  create_actuator payload =
      map_result Body.one_actuator (ActuatorService.create_actuator env payload)

  abbrev pub list_actuators : Option ActuatorType → Option Bool → Run (State env) (Body F)
  list_actuators actuator_type enabled =
      map_result Body.actuators
        (ActuatorService.list_actuators env (map_option actuator_type_value actuator_type) enabled)

  abbrev pub get_actuator : String → Run (State env) (Body F)
  get_actuator k = map_result Body.one_actuator (ActuatorService.get_actuator env k)

  abbrev pub update_actuator : String → ActuatorUpdate → Run (State env) (Body F)
  update_actuator k payload =
      map_result Body.one_actuator (ActuatorService.update_actuator env k payload)

  abbrev pub delete_actuator : String → Run (State env) (Body F)
  delete_actuator k = map_result (λ u. Body.done) (ActuatorService.delete_actuator env k)

  abbrev pub enable_actuator : String → Run (State env) (Body F)
  enable_actuator k = map_result Body.one_actuator (set_actuator_enabled k true)

  abbrev pub disable_actuator : String → Run (State env) (Body F)
  disable_actuator k = map_result Body.one_actuator (set_actuator_enabled k false)

  abbrev pub send_command : String → ActuatorCommand → Run (State env) (Body F)
  send_command k command = map_result Body.one_actuator (ActuatorService.send_command env k command)
