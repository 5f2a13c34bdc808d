-- ===== src/Api/Handlers/ActuatorEvents.antt =====
-- routes/actuator_events.py.
use trust_aware_self_healing.Shared.{ℕ, String, Option}
use trust_aware_self_healing.Store.Run.{Run}
use trust_aware_self_healing.Store.Db.{Env, State}
use trust_aware_self_healing.ActuatorService
use trust_aware_self_healing.Api.Bodies.{Body, map_result}

module _ (env : Env) where
  open env use {floats.{F}, security.{read_id, jwt_expire_minutes}}

  abbrev pub list_actuator_events : Option String → ℕ → Run (State env) (Body F)
  list_actuator_events k limit =
      map_result Body.actuator_events (ActuatorService.list_actuator_events env k limit)

  abbrev pub get_latest_actuator_event : String → Run (State env) (Body F)
  get_latest_actuator_event k =
      map_result Body.one_actuator_event (ActuatorService.get_latest_actuator_event env k)
