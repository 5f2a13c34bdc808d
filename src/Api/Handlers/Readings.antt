-- ===== src/Api/Handlers/Readings.antt =====
-- routes/readings.py.
use trust_aware_self_healing.Shared.{ℕ, String, Option}
use trust_aware_self_healing.Store.Run.{Run}
use trust_aware_self_healing.Store.Db.{Env, State}
use trust_aware_self_healing.ReadingService
use trust_aware_self_healing.Api.Bodies.{Body, map_result}
use trust_aware_self_healing.Models.{SensorReadingCreate}

module _ (env : Env) where
  open env use {floats.{F}, security.{read_id, jwt_expire_minutes}}

  abbrev pub create_reading : SensorReadingCreate F → Run (State env) (Body F)
  create_reading payload = map_result Body.one_reading (ReadingService.create_reading env payload)

  abbrev pub list_readings : Option String → ℕ → Run (State env) (Body F)
  list_readings k limit = map_result Body.readings (ReadingService.list_readings env k limit)

  abbrev pub get_latest_reading : String → Run (State env) (Body F)
  get_latest_reading k = map_result Body.one_reading (ReadingService.get_latest_reading env k)
