-- ===== src/Api/SensorUpdates.antt =====
-- routes/sensors.py: what a PUT answers and leaves, and what a GET after it answers.
use trust_aware_self_healing.Shared.{none, some, if◌then◌else◌}
use trust_aware_self_healing.Mongo.{IsMongo}
use trust_aware_self_healing.Models.{Sensor}
use trust_aware_self_healing.Store.Run.{Result, ok, pure, continue}
use trust_aware_self_healing.Store.Db.{Env, State}
use trust_aware_self_healing.SensorService
use trust_aware_self_healing.SensorService.{has_changes}
use trust_aware_self_healing.Api.Bodies.{Body}
use trust_aware_self_healing.Api.Serving.{Response, respond}

module _ (env : Env) (laws : IsMongo env.mongo) where
  open env use {floats.{F}}

  -- The answer 200 with a sensor, or 500 where the response model rejects it.
  abbrev pub shown : Sensor F → Response F
  shown d = respond env.floats 200 (ok (Body.one_sensor d))

  -- The answer and the state that the handler's result leads to.
  abbrev answered : Result (Sensor F) → State env → Response F × State env
  answered r s =
      let (b, s') = continue r (λ d. pure (Body.one_sensor d)) s in (respond env.floats 200 b, s')

  abbrev pub rejected : Response F
  rejected = record { status = 500; body = none }

  abbrev pub sends : Sensor F → Response F
  sends d = record { status = 200; body = some (Body.one_sensor d) }

  -- What is answered with a sensor that is fit to be sent but for its range.
  abbrev pub by_range : Sensor F → Response F
  by_range e = if env.floats.leb e.normal_max e.normal_min then rejected else sends e
