-- ===== src/System.antt =====
-- The whole backend as one system: HTTP requests, answered one after another (Api.serve). Between two
-- requests time passes, driver calls start and cease to fail, and a training script may write a model
-- file.
pub mod Scores
pub mod Readings
pub mod Accounts
pub mod Health
use trust_aware_self_healing.Shared.{ℕ, Bool, List, Option}
use trust_aware_self_healing.Store.Db.{Env, State, Detector, Regressor, ModelFile}
use trust_aware_self_healing.Api.{Request, serve}

module _ (env : Env) where
  open env use {floats.{F}}

  -- One request, whatever it answers, or a change around the program.
  pub data Step : State env → State env → Type 0 where
    request : (r : Request F) (s : State env) → Step s (serve env r s).1
    time : (now : ℕ) (s : State env) → Step s (record s { clock = now })
    failures : (outages : List Bool) (s : State env) → Step s (record s { outages = outages })
    detector_training :
        (file : Option (ModelFile (Detector F))) (s : State env)
        → Step s (record s { detector = record s.detector { file = file } })
    regressor_training :
        (file : Option (ModelFile (Regressor F))) (s : State env)
        → Step s (record s { regressor = record s.regressor { file = file } })

  pub data Reachable : State env → State env → Type 0 where
    start : (s : State env) → Reachable s s
    later : (s t u : State env) → Reachable s t → Step t u → Reachable s u
