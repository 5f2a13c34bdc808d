-- ===== src/Api/Handlers/SensorHealth.antt =====
-- routes/sensor_health.py.
use trust_aware_self_healing.Shared.{ℕ, String}
use trust_aware_self_healing.Models.{SensorHealth}
use trust_aware_self_healing.Store.Run.{Run, lift, or_raise, not_found, ◌>>=◌, ◌>>◌}
use trust_aware_self_healing.Store.Db.{Env, State, sensors}
use trust_aware_self_healing.Validators.{ensure_exists}
use trust_aware_self_healing.TrustEngine.{is_sensor}
use trust_aware_self_healing.TrustEngine
use trust_aware_self_healing.Api.Bodies.{Body, map_result}

module _ (env : Env) where
  open env use {floats.{F}, security.{read_id, jwt_expire_minutes}}

  unfoldable pub health_of : String → Run (State env) (SensorHealth F)
  health_of sensor_id = do
    ensure_exists env (sensors env) (is_sensor env sensor_id)
    health ← TrustEngine.get_health env sensor_id
    lift (or_raise health not_found)

  abbrev pub list_sensor_health : ℕ → Run (State env) (Body F)
  list_sensor_health limit = map_result Body.healths (TrustEngine.list_health env limit)

  abbrev pub get_sensor_health : String → Run (State env) (Body F)
  get_sensor_health k = map_result Body.one_health (health_of k)
