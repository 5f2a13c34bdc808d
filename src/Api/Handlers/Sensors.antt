-- ===== src/Api/Handlers/Sensors.antt =====
-- routes/sensors.py.
use trust_aware_self_healing.Shared.{map_option, Bool, true, false, String, Option}
use trust_aware_self_healing.Store.Run.{Run}
use trust_aware_self_healing.Store.Db.{Env, State}
use trust_aware_self_healing.SensorService
use trust_aware_self_healing.Api.Bodies.{Body, map_result}
use trust_aware_self_healing.Models.{SensorType, sensor_type_value, SensorCreate, SensorUpdate}

module _ (env : Env) where
  open env use {floats.{F}, security.{read_id, jwt_expire_minutes}}

  abbrev pub create_sensor : SensorCreate F → Run (State env) (Body F)
  create_sensor payload = map_result Body.one_sensor (SensorService.create_sensor env payload)

  abbrev pub list_sensors : Option SensorType → Option Bool → Run (State env) (Body F)
  list_sensors sensor_type enabled =
      map_result Body.sensors
        (SensorService.list_sensors env (map_option sensor_type_value sensor_type) enabled)

  abbrev pub get_sensor : String → Run (State env) (Body F)
  get_sensor k = map_result Body.one_sensor (SensorService.get_sensor env k)

  abbrev pub update_sensor : String → SensorUpdate F → Run (State env) (Body F)
  update_sensor k payload = map_result Body.one_sensor (SensorService.update_sensor env k payload)

  abbrev pub delete_sensor : String → Run (State env) (Body F)
  delete_sensor k = map_result (λ u. Body.done) (SensorService.delete_sensor env k)

  abbrev pub enable_sensor : String → Run (State env) (Body F)
  enable_sensor k = map_result Body.one_sensor (SensorService.set_sensor_enabled env k true)

  abbrev pub disable_sensor : String → Run (State env) (Body F)
  disable_sensor k = map_result Body.one_sensor (SensorService.set_sensor_enabled env k false)
