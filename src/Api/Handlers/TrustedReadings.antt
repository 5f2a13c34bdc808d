-- ===== src/Api/Handlers/TrustedReadings.antt =====
-- routes/trusted_readings.py.
use trust_aware_self_healing.Shared.{ℕ, String, Option}
use trust_aware_self_healing.Store.Run.{Run}
use trust_aware_self_healing.Store.Db.{Env, State}
use trust_aware_self_healing.VirtualSensor
use trust_aware_self_healing.Api.Bodies.{Body, map_result}

module _ (env : Env) where
  open env use {floats.{F}, security.{read_id, jwt_expire_minutes}}

  abbrev pub list_trusted_readings : Option String → ℕ → Run (State env) (Body F)
  list_trusted_readings k limit =
      map_result Body.trusted_readings (VirtualSensor.list_trusted env k limit)

  abbrev pub get_latest_trusted_reading : String → Run (State env) (Body F)
  get_latest_trusted_reading k =
      map_result Body.one_trusted_reading (VirtualSensor.get_latest_trusted env k)
