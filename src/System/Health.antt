-- ===== src/System/Health.antt =====
-- GET /sensor-health in the states that the system reaches.
use trust_aware_self_healing.Shared.{
  ℕ, zero, suc, take, leb as leb_ℕ, true, ◌≡◌, refl, List, [], ◌∷◌, All,
}
use trust_aware_self_healing.Floats.{IsOrdered, IsExact}
use trust_aware_self_healing.Mongo.{IsMongo}
use trust_aware_self_healing.Models.{SensorHealth}
use trust_aware_self_healing.Store.Db.{Env, State}
use trust_aware_self_healing.Store.Driver.{find}
use trust_aware_self_healing.Store.Run.{◌>>=◌}
use trust_aware_self_healing.Store.Quiet.{driver-IsQuiet}
use trust_aware_self_healing.Listing.{find_limited, limited}
use trust_aware_self_healing.TrustEngine.{list_health}
use trust_aware_self_healing.TrustEngine.Scored.{IsScored, IsScore}
use trust_aware_self_healing.Api.Schemas.{every, health_response_valid}
use trust_aware_self_healing.Api.Requests.{Request, is_valid}
use trust_aware_self_healing.Api.Bodies.{is_presentable}
use trust_aware_self_healing.Api.Bodies.{map_result}
use trust_aware_self_healing.Api.Handlers.{handle}
use trust_aware_self_healing.Api.Serving.{answer, serve}
use trust_aware_self_healing.System.{Reachable}
use trust_aware_self_healing.System.Scores.{Reachable-IsScored}

module _ (env : Env) where
  open env use {floats.{F}}

  module _ (laws : IsMongo env.mongo) (ordered : IsOrdered env.floats)
      (exact : IsExact env.floats 105) where
    every_in_range :
        (hs : List (SensorHealth F))
        → All (λ d. IsScore env d.trust_score) hs
        → every (health_response_valid env.floats) hs ≡ true
    every_in_range [] h = refl
    every_in_range (d ∷ hs) ((low, high), h) = rw (low, high) (every_in_range hs h)

    limited-All :
        {D : Type 0} (R : D → Type 0) (n : ℕ) (ds : List D) → All R ds → All R (limited n ds)
    limited-All R zero ds h = h
    limited-All R (suc n) ds h = take-All (suc n) ds h
      where
        take-All : (n : ℕ) (ds : List _) → All R ds → All R (take n ds)
        take-All zero ds h = tt
        take-All (suc n) [] h = tt
        take-All (suc n) (d ∷ ds) (r, h) = (r, take-All n ds h)

    -- With ordered numbers, whole numbers up to 105 exact, and a driver that meets its laws: in every
    -- state that HTTP requests lead to from one in which every stored score lies between 0 and 100 and
    -- the settings are such as the schema accepts, while no driver call fails, GET /sensor-health is
    -- answered 200 whatever its limit: no stored score is one that the response schema rejects.
    pub sensor_health_answered :
        (s t : State env)
        → Reachable env s t
        → IsScored env s
        → t.outages ≡ []
        → (limit : ℕ) → (serve env (Request.list_sensor_health limit) t).0.status ≡ 200
    unfolding serve answer is_valid handle map_result list_health find_limited find is_presentable
        ◌>>=◌
    sensor_health_answered s t path h quiet limit =
        let listed =
          env.mongo.find (λ d. true) (λ (d : SensorHealth F) e. leb_ℕ e.updated_at d.updated_at)
            t.sensor_health in
        let scored =
          laws.All-find _ (λ d. true) _ t.sensor_health
            (Reachable-IsScored env laws ordered exact s t path h).health in
        rw
          (
            driver-IsQuiet env _ t quiet,
            every_in_range (limited limit listed) (limited-All _ limit listed scored),
          )
          refl
