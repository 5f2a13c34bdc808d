-- ===== src/Api/Handlers/Predictions.antt =====
-- routes/predictions.py.
use trust_aware_self_healing.Shared.{ℕ, String, Option}
use trust_aware_self_healing.Store.Run.{Run}
use trust_aware_self_healing.Store.Db.{Env, State}
use trust_aware_self_healing.FaultDetection
use trust_aware_self_healing.Api.Bodies.{Body, map_result}

module _ (env : Env) where
  open env use {floats.{F}, security.{read_id, jwt_expire_minutes}}

  abbrev pub list_predictions : Option String → ℕ → Run (State env) (Body F)
  list_predictions k limit =
      map_result Body.predictions (FaultDetection.list_predictions env k limit)

  abbrev pub get_latest_prediction : String → Run (State env) (Body F)
  get_latest_prediction k =
      map_result Body.one_prediction (FaultDetection.get_latest_prediction env k)
