-- ===== src/System/Scores.antt =====
-- The trust scores of the states that the system reaches.
pub mod Requests
use trust_aware_self_healing.Shared.{
  ℕ, zero, suc, take, leb as leb_ℕ, true, false, ◌≡◌, refl, Bool, String, List, [], ◌∷◌, ◌&&◌,
  arith, Option, All, if◌then◌else◌,
}
use trust_aware_self_healing.Floats.{IsOrdered, IsExact, of_ℕ}
use trust_aware_self_healing.Mongo.{IsMongo}
use trust_aware_self_healing.Models.{Sensor, SensorHealth, Reading}
use trust_aware_self_healing.Store.Db.{Env, State, sensor_readings, users, password_reset_tokens}
use trust_aware_self_healing.Store.Driver.{insert_one, find}
use trust_aware_self_healing.Store.Run.{◌>>=◌}
use trust_aware_self_healing.Store.Quiet.{driver-IsQuiet}
use trust_aware_self_healing.Store.Keeps.{Keeps, Keeps-insert_one}
use trust_aware_self_healing.Store.Frame.{IsFree}
use trust_aware_self_healing.Store.Ensures.{Keeps-of_Ensures}
use trust_aware_self_healing.Listing.{find_limited, limited}
use trust_aware_self_healing.TrustEngine.{list_health}
use trust_aware_self_healing.TrustEngine.Scored.{kept_IsScored, IsScored, IsScored-stable, IsScore}
use trust_aware_self_healing.TrustEngine.Range.{get_settings-Ensures, update_trust-IsScored}
use trust_aware_self_healing.ReadingService.TrustRange.{create_reading-IsScored}
use trust_aware_self_healing.Api.Schemas.{every, is_percent, health_response_valid}
use trust_aware_self_healing.Api.Requests.{Request, is_valid}
use trust_aware_self_healing.Api.Bodies.{is_presentable}
use trust_aware_self_healing.Api.Bodies.{map_result}
use trust_aware_self_healing.Api.Handlers.{handle}
use trust_aware_self_healing.Api.Serving.{answer, serve}
use trust_aware_self_healing.Api.Frame.{IsPeripheral}
use trust_aware_self_healing.Api.Frame.Pipeline.{inject_fault-Keeps}
use trust_aware_self_healing.Api.Frame.Accounts.{
  register-Keeps, google_login-Keeps, forgot_password-Keeps, reset_password-Keeps,
}
use trust_aware_self_healing.Api.Frame.All.{KeepsCore, handle-Keeps, serve-Keeps}
use trust_aware_self_healing.System.{
  Step, Reachable, request, time, failures, detector_training, regressor_training, start, later,
}
use trust_aware_self_healing.System.Scores.Requests.{
  create_sensor-IsScored, update_sensor-IsScored, set_sensor_enabled-IsScored,
  delete_sensor-IsScored, update_settings-IsScored,
}

module _ (env : Env) where
  open env use {floats.{F}}

  scores_peripheral : IsPeripheral env (IsScored env)
  scores_peripheral = record {
    stable = IsScored-stable env;
    actuator = record { write = λ s c n h. kept_IsScored env s _ refl refl refl refl h };
    actuator_event = record { write = λ s c n h. kept_IsScored env s _ refl refl refl refl h };
    rule = record { write = λ s c n h. kept_IsScored env s _ refl refl refl refl h };
    node = record { write = λ s c n h. kept_IsScored env s _ refl refl refl refl h };
    node_command = record { write = λ s c n h. kept_IsScored env s _ refl refl refl refl h };
    prediction = record { write = λ s c n h. kept_IsScored env s _ refl refl refl refl h };
    trusted_reading = record { write = λ s c n h. kept_IsScored env s _ refl refl refl refl h };
    detector = λ s m h. kept_IsScored env s _ refl refl refl refl h;
    regressor = λ s m h. kept_IsScored env s _ refl refl refl refl h;
    push = λ s p h. kept_IsScored env s _ refl refl refl refl h;
  }

  IsFree-users : IsFree env (IsScored env) (users env)
  IsFree-users = record { write = λ s c n h. kept_IsScored env s _ refl refl refl refl h }

  IsFree-tokens : IsFree env (IsScored env) (password_reset_tokens env)
  IsFree-tokens = record { write = λ s c n h. kept_IsScored env s _ refl refl refl refl h }

  module _ (laws : IsMongo env.mongo) (ordered : IsOrdered env.floats)
      (exact : IsExact env.floats 105) where
    scores_core : KeepsCore env (IsScored env) (λ r. is_valid env.floats r ≡ true)
    unfolding is_valid
    scores_core = record {
      create_sensor = λ payload v. create_sensor-IsScored env laws ordered exact payload;
      update_sensor = λ k payload v. update_sensor-IsScored env laws ordered exact k payload;
      delete_sensor = delete_sensor-IsScored env laws ordered exact;
      set_sensor_enabled = set_sensor_enabled-IsScored env laws ordered exact;
      create_reading =
          λ payload v. record { at = create_reading-IsScored env laws ordered exact payload };
      inject_fault = λ draw k t offset v.
          inject_fault-Keeps env _ scores_peripheral
            (λ make.
              Keeps-insert_one env _ (IsScored-stable env) (sensor_readings env) make
                λ s h. kept_IsScored env s _ refl refl refl refl h)
            (update_trust-IsScored env laws ordered exact) draw k t offset;
      get_settings = Keeps-of_Ensures (get_settings-Ensures env laws ordered exact);
      update_settings = update_settings-IsScored env laws ordered exact;
      register = λ salt payload v.
          register-Keeps env _ (IsScored-stable env) IsFree-users IsFree-tokens salt payload;
      google_login = λ id_token v.
          google_login-Keeps env _ (IsScored-stable env) IsFree-users IsFree-tokens id_token;
      forgot_password = λ raw email v.
          forgot_password-Keeps env _ (IsScored-stable env) IsFree-users IsFree-tokens raw email;
      reset_password = λ salt raw new_password v.
          reset_password-Keeps env _ (IsScored-stable env) IsFree-users IsFree-tokens salt raw
            new_password;
    }

    Step-IsScored : (s t : State env) → Step env s t → IsScored env s → IsScored env t
    Step-IsScored _ _ (request r s) h =
        serve-Keeps env (IsScored env) (λ q. Unit {0})
          (λ q v u. handle-Keeps env (IsScored env) _ scores_peripheral scores_core q v) r s tt h
    Step-IsScored _ _ (time now s) h = kept_IsScored env s _ refl refl refl refl h
    Step-IsScored _ _ (failures outages s) h = kept_IsScored env s _ refl refl refl refl h
    Step-IsScored _ _ (detector_training file s) h = kept_IsScored env s _ refl refl refl refl h
    Step-IsScored _ _ (regressor_training file s) h = kept_IsScored env s _ refl refl refl refl h

    -- With ordered numbers, whole numbers up to 105 exact, and a driver that meets its laws: from a
    -- state in which every stored score lies between 0 and 100 and the settings are such as the schema
    -- accepts, any sequence of HTTP requests, valid or not, whatever fails in between and whatever
    -- models are trained, leads to a state of which the same holds.
    pub Reachable-IsScored : (s t : State env) → Reachable env s t → IsScored env s → IsScored env t
    Reachable-IsScored _ _ (start s) h = h
    Reachable-IsScored _ _ (later s u t path step) h =
        Step-IsScored u t step (Reachable-IsScored s u path h)
