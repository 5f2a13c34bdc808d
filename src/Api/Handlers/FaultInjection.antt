-- ===== src/Api/Handlers/FaultInjection.antt =====
-- routes/fault_injection.py.
use trust_aware_self_healing.Shared.{String, Option}
use trust_aware_self_healing.Store.Run.{Run}
use trust_aware_self_healing.Store.Db.{Env, State}
use trust_aware_self_healing.FaultInjection
use trust_aware_self_healing.Api.Bodies.{Body, map_result}
use trust_aware_self_healing.Models.{FaultType}
use trust_aware_self_healing.FaultInjection.{Draw}

module _ (env : Env) where
  open env use {floats.{F}, security.{read_id, jwt_expire_minutes}}

  abbrev pub inject_fault : Draw F → String → FaultType → Option F → Run (State env) (Body F)
  inject_fault draw k fault_type offset =
      map_result Body.injected (FaultInjection.inject_fault env draw k fault_type offset)
