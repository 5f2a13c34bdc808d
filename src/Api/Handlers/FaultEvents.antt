-- ===== src/Api/Handlers/FaultEvents.antt =====
-- routes/fault_events.py.
use trust_aware_self_healing.Shared.{ℕ, String, Option}
use trust_aware_self_healing.Store.Run.{Run}
use trust_aware_self_healing.Store.Db.{Env, State}
use trust_aware_self_healing.SelfHealing
use trust_aware_self_healing.Api.Bodies.{Body, map_result}

module _ (env : Env) where
  open env use {floats.{F}, security.{read_id, jwt_expire_minutes}}

  abbrev pub list_fault_events : Option String → ℕ → Run (State env) (Body F)
  list_fault_events k limit =
      map_result Body.fault_events (SelfHealing.list_fault_events env k limit)

  abbrev pub get_latest_fault_event : String → Run (State env) (Body F)
  get_latest_fault_event k =
      map_result Body.one_fault_event (SelfHealing.get_latest_fault_event env k)
