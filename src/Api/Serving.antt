-- ===== src/Api/Serving.antt =====
-- One request from end to end: FastAPI checks it, runs the handler, and checks what it returns.
use trust_aware_self_healing.Shared.{ℕ, Option, none, some, if◌then◌else◌}
use trust_aware_self_healing.Floats.{Floats}
use trust_aware_self_healing.Store.Run.{
  Error, Result, ok, err, not_found, conflict, bad_request, unauthorized, service_unavailable,
}
use trust_aware_self_healing.Store.Db.{Env, State}
use trust_aware_self_healing.Api.Requests.{Request, is_valid}
use trust_aware_self_healing.Api.Bodies.{Body, is_presentable}
use trust_aware_self_healing.Api.Handlers.{handle}

pub record Response (F : Type 0) : Type 0 where
  pub status : ℕ
  pub body : Option (Body F)

-- An `HTTPException` has its status; any other exception becomes 500.
abbrev pub status_of : Error → ℕ
status_of not_found = 404
status_of conflict = 409
status_of bad_request = 400
status_of unauthorized = 401
status_of service_unavailable = 503
status_of _ = 500

abbrev pub success_status : {F : Type 0} → Request F → ℕ
success_status (Request.create_sensor _) = 201
success_status (Request.delete_sensor _) = 204
success_status (Request.create_actuator _) = 201
success_status (Request.delete_actuator _) = 204
success_status (Request.create_node _) = 201
success_status (Request.delete_node _) = 204
success_status (Request.create_rule _) = 201
success_status (Request.delete_rule _) = 204
success_status (Request.create_reading _) = 201
success_status (Request.inject_fault _ _ _ _) = 201
success_status (Request.register _ _) = 201
success_status _ = 200

-- `serialize_response`: a body that its model rejects becomes 500.
abbrev pub respond : (fl : Floats) → ℕ → Result (Body fl.F) → Response fl.F
respond fl status (ok body) =
    if is_presentable fl body
    then record { status = status; body = some body }
    else record { status = 500; body = none }
respond fl status (err e) = record { status = status_of e; body = none }

module _ (env : Env) where
  open env use {floats.{F}}

  unfoldable pub answer : Request F → State env → Response F × State env
  answer request s =
      let (r, s') = handle env request s in (respond env.floats (success_status request) r, s')

  -- 422 where the request is not valid.
  unfoldable pub serve : Request F → State env → Response F × State env
  unfolding answer
  serve request s =
      if is_valid env.floats request
      then answer request s
      else (record { status = 422; body = none }, s)
