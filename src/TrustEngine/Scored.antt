-- ===== src/TrustEngine/Scored.antt =====
-- services/trust_engine.py: the trust scores in the database, and the range that the response schemas
-- want.
use trust_aware_self_healing.Shared.{◌≡◌, refl, arith}
use trust_aware_self_healing.Floats.{IsExact, of_ℕ}
use trust_aware_self_healing.Mongo.Contents.{AllStored}
use trust_aware_self_healing.Store.Run.{ok}
use trust_aware_self_healing.Store.Db.{Env, State}
use trust_aware_self_healing.Store.Keeps.{IsStable}
use trust_aware_self_healing.TrustEngine.Scoring.{
  TrustParameters, default_parameters, trust_parameters,
}
use trust_aware_self_healing.TrustEngine.Bounds.{IsWithin, InRange}

module _ (env : Env) where
  open env use {floats.{F, leb}, mongo.{Coll}}

  -- 0 to 100, as the schemas check it.
  abbrev pub IsScore : F → Type 0
  IsScore t = InRange env.floats (of_ℕ env.floats 0) (of_ℕ env.floats 100) t

  abbrev pub IsSound : TrustParameters F → Type 0
  IsSound p = IsWithin env.floats (of_ℕ env.floats 0) (of_ℕ env.floats 100) p

  -- All stored scores lie between 0 and 100, and the settings are such as `PUT /settings` accepts.
  pub record IsScored (s : State env) : Type 0 where
    pub health : AllStored env.mongo (λ h. IsScore h.trust_score) s.sensor_health
    pub sensor : AllStored env.mongo (λ d. IsScore d.trust_score) s.sensors
    pub settings :
        AllStored env.mongo (λ d. IsSound (trust_parameters env.floats (ok d))) s.system_settings
    pub events : AllStored env.mongo (λ e. IsScore e.trust_score) s.fault_events

  -- A state with the same scores and settings.
  pub kept_IsScored :
      (s t : State env)
      → t.sensor_health ≡ s.sensor_health
      → t.sensors ≡ s.sensors
      → t.system_settings ≡ s.system_settings
      → t.fault_events ≡ s.fault_events
      → IsScored s
      → IsScored t
  kept_IsScored s t health sensor settings events h = record {
    health = rw health h.health;
    sensor = rw sensor h.sensor;
    settings = rw settings h.settings;
    events = rw events h.events;
  }

  pub IsScored-stable : IsStable env IsScored
  IsScored-stable s rest h = kept_IsScored s _ refl refl refl refl h

  pub default_parameters-IsSound : IsExact env.floats 105 → IsSound (default_parameters env.floats)
  default_parameters-IsSound e = record {
    lo-le-min = e.leb-of_ℕ 0 0 (omega arith) (omega arith);
    min-le-hi = e.leb-of_ℕ 0 100 (omega arith) (omega arith);
    lo-le-max = e.leb-of_ℕ 0 100 (omega arith) (omega arith);
    max-le-hi = e.leb-of_ℕ 100 100 (omega arith) (omega arith);
    penalty_nonneg = e.leb-of_ℕ 0 20 (omega arith) (omega arith);
    gain_nonneg = e.leb-of_ℕ 0 5 (omega arith) (omega arith);
  }
