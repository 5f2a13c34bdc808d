-- ===== src/Api/Frame/All.antt =====
-- routes/*.py: all requests that write to no collection but the peripheral ones.
use trust_aware_self_healing.Shared.{String, Bool, true, false, ◌≡◌, inl, inr, Bool-cases, Option}
use trust_aware_self_healing.Models.{
  SensorCreate, SensorUpdate, SensorReadingCreate, SettingsUpdate, FaultType, UserRegister,
}
use trust_aware_self_healing.SensorService
use trust_aware_self_healing.ReadingService
use trust_aware_self_healing.FaultInjection
use trust_aware_self_healing.FaultInjection.{Draw}
use trust_aware_self_healing.SettingsService
use trust_aware_self_healing.Authentication
use trust_aware_self_healing.Store.Run.{Run}
use trust_aware_self_healing.Store.Db.{Env, State}
use trust_aware_self_healing.Store.Keeps.{Keeps, Keeps-bind, Keeps-pure}
use trust_aware_self_healing.NodeService.Frame.{
  create_node-Keeps, list_nodes-Keeps, get_node-Keeps, update_node-Keeps, delete_node-Keeps,
  record_heartbeat-Keeps,
}
use trust_aware_self_healing.Api.Requests.{Request, is_valid}
use trust_aware_self_healing.Api.Serving.{answer, serve}
use trust_aware_self_healing.Api.Bodies.{map_result}
use trust_aware_self_healing.Api.Handlers.{handle}
use trust_aware_self_healing.Api.Frame.{IsPeripheral}
use trust_aware_self_healing.Api.Frame.Devices.{
  create_actuator-Keeps, list_actuators-Keeps, get_actuator-Keeps, update_actuator-Keeps,
  delete_actuator-Keeps, set_actuator_enabled-Keeps, send_command-Keeps, list_actuator_events-Keeps,
  get_latest_actuator_event-Keeps, pending_commands-Keeps, acknowledge_command-Keeps,
  create_rule-Keeps, list_rules-Keeps, get_rule-Keeps, update_rule-Keeps, delete_rule-Keeps,
}
use trust_aware_self_healing.Api.Frame.Reads.{
  list_sensors-Keeps, get_sensor-Keeps, list_readings-Keeps, get_latest_reading-Keeps,
  list_health-Keeps, health_of-Keeps, list_predictions-Keeps, get_latest_prediction-Keeps,
  list_trusted-Keeps, get_latest_trusted-Keeps, list_fault_events-Keeps,
  get_latest_fault_event-Keeps,
}
use trust_aware_self_healing.Api.Frame.Accounts.{login-Keeps, current_user-Keeps}

-- The requests that write to the sensors, the readings, the scores, the settings or the accounts, where
-- they satisfy `V`, keep the property.
pub record KeepsCore (env : Env) (P : State env → Type 0) (V : Request env.floats.F → Type 0)
    : Type 0 where
  pub create_sensor :
      (payload : SensorCreate env.floats.F)
      → V (Request.create_sensor payload)
      → Keeps P (SensorService.create_sensor env payload)
  pub update_sensor :
      (k : String) (payload : SensorUpdate env.floats.F)
      → V (Request.update_sensor k payload)
      → Keeps P (SensorService.update_sensor env k payload)
  pub delete_sensor : (k : String) → Keeps P (SensorService.delete_sensor env k)
  pub set_sensor_enabled :
      (k : String) (enabled : Bool) → Keeps P (SensorService.set_sensor_enabled env k enabled)
  pub create_reading :
      (payload : SensorReadingCreate env.floats.F)
      → V (Request.create_reading payload)
      → Keeps P (ReadingService.create_reading env payload)
  pub inject_fault :
      (draw : Draw env.floats.F) (k : String) (t : FaultType) (offset : Option env.floats.F)
      → V (Request.inject_fault draw k t offset)
      → Keeps P (FaultInjection.inject_fault env draw k t offset)
  pub get_settings : Keeps P (SettingsService.get_settings env)
  pub update_settings :
      (payload : SettingsUpdate env.floats.F)
      → V (Request.update_settings payload)
      → Keeps P (SettingsService.update_settings env payload)
  pub register :
      (salt : String) (payload : UserRegister)
      → V (Request.register salt payload)
      → Keeps P (Authentication.register env salt payload)
  pub google_login :
      (id_token : String)
      → V (Request.google_login id_token)
      → Keeps P (Authentication.google_login env id_token)
  pub forgot_password :
      (raw email : String)
      → V (Request.forgot_password raw email)
      → Keeps P (Authentication.forgot_password env raw email)
  pub reset_password :
      (salt raw new_password : String)
      → V (Request.reset_password salt raw new_password)
      → Keeps P (Authentication.reset_password env salt raw new_password)

pub map_result-Keeps :
    {S A B : Type 0} {P : S → Type 0} (f : A → B) (m : Run S A)
    → Keeps P m
    → Keeps P (map_result f m)
unfolding map_result
map_result-Keeps f m k = Keeps-bind m _ k λ a. Keeps-pure _

module _ (env : Env) (P : State env → Type 0) (V : Request env.floats.F → Type 0)
    (peripheral : IsPeripheral env P) (core : KeepsCore env P V) where
  open env use {floats.{F}, security.{read_id}}
  open peripheral use {stable, node}

  -- A property that looks at no peripheral collection is kept by every request if it is by the others.
  pub handle-Keeps : (request : Request F) → V request → Keeps P (handle env request)
  unfolding handle
  handle-Keeps (Request.list_sensors sensor_type enabled) v =
      map_result-Keeps _ _ (list_sensors-Keeps env P stable _ enabled)
  handle-Keeps (Request.get_sensor k) v = map_result-Keeps _ _ (get_sensor-Keeps env P stable k)
  handle-Keeps (Request.create_actuator payload) v =
      map_result-Keeps _ _ (create_actuator-Keeps env P peripheral payload)
  handle-Keeps (Request.list_actuators actuator_type enabled) v =
      map_result-Keeps _ _ (list_actuators-Keeps env P peripheral _ enabled)
  handle-Keeps (Request.get_actuator k) v =
      map_result-Keeps _ _ (get_actuator-Keeps env P peripheral k)
  handle-Keeps (Request.update_actuator k payload) v =
      map_result-Keeps _ _ (update_actuator-Keeps env P peripheral k payload)
  handle-Keeps (Request.delete_actuator k) v =
      map_result-Keeps _ _ (delete_actuator-Keeps env P peripheral k)
  handle-Keeps (Request.enable_actuator k) v =
      map_result-Keeps _ _ (set_actuator_enabled-Keeps env P peripheral k true)
  handle-Keeps (Request.disable_actuator k) v =
      map_result-Keeps _ _ (set_actuator_enabled-Keeps env P peripheral k false)
  handle-Keeps (Request.send_command k command) v =
      map_result-Keeps _ _ (send_command-Keeps env P peripheral k command)
  handle-Keeps (Request.create_node payload) v =
      map_result-Keeps _ _ (create_node-Keeps env P stable node payload)
  handle-Keeps (Request.list_nodes enabled) v =
      map_result-Keeps _ _ (list_nodes-Keeps env P stable node enabled)
  handle-Keeps (Request.get_node k) v = map_result-Keeps _ _ (get_node-Keeps env P stable node k)
  handle-Keeps (Request.update_node k payload) v =
      map_result-Keeps _ _ (update_node-Keeps env P stable node k payload)
  handle-Keeps (Request.delete_node k) v =
      map_result-Keeps _ _ (delete_node-Keeps env P stable node k)
  handle-Keeps (Request.node_heartbeat k ip_address) v =
      map_result-Keeps _ _ (record_heartbeat-Keeps env P stable node k ip_address)
  handle-Keeps (Request.get_pending_commands k) v =
      map_result-Keeps _ _ (pending_commands-Keeps env P peripheral k)
  handle-Keeps (Request.acknowledge_command k command_id) v =
      map_result-Keeps _ _ (acknowledge_command-Keeps env P peripheral k (read_id command_id))
  handle-Keeps (Request.create_rule payload) v =
      map_result-Keeps _ _ (create_rule-Keeps env P peripheral payload)
  handle-Keeps (Request.list_rules sensor_id actuator_id enabled) v =
      map_result-Keeps _ _ (list_rules-Keeps env P peripheral sensor_id actuator_id enabled)
  handle-Keeps (Request.get_rule k) v = map_result-Keeps _ _ (get_rule-Keeps env P peripheral k)
  handle-Keeps (Request.update_rule k payload) v =
      map_result-Keeps _ _ (update_rule-Keeps env P peripheral k payload)
  handle-Keeps (Request.delete_rule k) v =
      map_result-Keeps _ _ (delete_rule-Keeps env P peripheral k)
  handle-Keeps (Request.list_readings k limit) v =
      map_result-Keeps _ _ (list_readings-Keeps env P stable k limit)
  handle-Keeps (Request.get_latest_reading k) v =
      map_result-Keeps _ _ (get_latest_reading-Keeps env P stable k)
  handle-Keeps (Request.list_sensor_health limit) v =
      map_result-Keeps _ _ (list_health-Keeps env P stable limit)
  handle-Keeps (Request.get_sensor_health k) v =
      map_result-Keeps _ _ (health_of-Keeps env P stable k)
  handle-Keeps (Request.list_predictions k limit) v =
      map_result-Keeps _ _ (list_predictions-Keeps env P stable k limit)
  handle-Keeps (Request.get_latest_prediction k) v =
      map_result-Keeps _ _ (get_latest_prediction-Keeps env P stable k)
  handle-Keeps (Request.list_trusted_readings k limit) v =
      map_result-Keeps _ _ (list_trusted-Keeps env P stable k limit)
  handle-Keeps (Request.get_latest_trusted_reading k) v =
      map_result-Keeps _ _ (get_latest_trusted-Keeps env P stable k)
  handle-Keeps (Request.list_fault_events k limit) v =
      map_result-Keeps _ _ (list_fault_events-Keeps env P stable k limit)
  handle-Keeps (Request.get_latest_fault_event k) v =
      map_result-Keeps _ _ (get_latest_fault_event-Keeps env P stable k)
  handle-Keeps (Request.list_actuator_events k limit) v =
      map_result-Keeps _ _ (list_actuator_events-Keeps env P peripheral k limit)
  handle-Keeps (Request.get_latest_actuator_event k) v =
      map_result-Keeps _ _ (get_latest_actuator_event-Keeps env P peripheral k)
  handle-Keeps (Request.login email password) v =
      map_result-Keeps _ _ (login-Keeps env P stable email password)
  handle-Keeps (Request.me authorization) v =
      map_result-Keeps _ _ (current_user-Keeps env P stable authorization)
  handle-Keeps (Request.create_reading payload) v =
      map_result-Keeps _ _ (core.create_reading payload v)
  handle-Keeps (Request.create_sensor payload) v =
      map_result-Keeps _ _ (core.create_sensor payload v)
  handle-Keeps (Request.delete_sensor k) v = map_result-Keeps _ _ (core.delete_sensor k)
  handle-Keeps (Request.disable_sensor k) v = map_result-Keeps _ _ (core.set_sensor_enabled k false)
  handle-Keeps (Request.enable_sensor k) v = map_result-Keeps _ _ (core.set_sensor_enabled k true)
  handle-Keeps (Request.forgot_password raw_token email) v =
      map_result-Keeps _ _ (core.forgot_password raw_token email v)
  handle-Keeps Request.get_settings v = map_result-Keeps _ _ (core.get_settings)
  handle-Keeps (Request.google_login id_token) v =
      map_result-Keeps _ _ (core.google_login id_token v)
  handle-Keeps (Request.inject_fault draw k fault_type offset) v =
      map_result-Keeps _ _ (core.inject_fault draw k fault_type offset v)
  handle-Keeps (Request.register salt payload) v =
      map_result-Keeps _ _ (core.register salt payload v)
  handle-Keeps (Request.reset_password salt raw_token new_password) v =
      map_result-Keeps _ _ (core.reset_password salt raw_token new_password v)
  handle-Keeps (Request.update_sensor k payload) v =
      map_result-Keeps _ _ (core.update_sensor k payload v)
  handle-Keeps (Request.update_settings payload) v =
      map_result-Keeps _ _ (core.update_settings payload v)

module _ (env : Env) (P : State env → Type 0) (V : Request env.floats.F → Type 0) where
  open env use {floats.{F}}

  -- What every valid request with `V` keeps is kept by serving a request with `V`.
  pub serve-Keeps :
      ((request : Request F)
        → is_valid env.floats request ≡ true
        → V request
        → Keeps P (handle env request))
      → (request : Request F) (s : State env) → V request
      → P s
      → P (serve env request s).1
  unfolding serve answer
  serve-Keeps kept request s v h = elim (Bool-cases (is_valid env.floats request)) [
    | inl valid ↦ rw valid ((kept request valid v).at s h)
    | inr refused ↦ rw refused h
  ]
