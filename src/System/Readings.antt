-- ===== src/System/Readings.antt =====
-- The raw readings of the states that the system reaches.
use trust_aware_self_healing.Shared.{ℕ, ◌≡◌, sym, ap, ◌∙◌, List, [], ◌∷◌, ◌++◌}
use mathlib.Core.List.{append_assoc, append-nil}
use trust_aware_self_healing.Mongo.{IsMongo}
use trust_aware_self_healing.Models.{Reading}
use trust_aware_self_healing.Store.Db.{Env, State, sensor_readings, users, password_reset_tokens}
use trust_aware_self_healing.Store.Driver.{insert_one}
use trust_aware_self_healing.Store.Keeps.{Keeps, IsStable, Keeps-insert_one}
use trust_aware_self_healing.Store.Frame.{IsFree}
use trust_aware_self_healing.Api.Frame.{IsPeripheral}
use trust_aware_self_healing.Api.Frame.Sensors.{
  IsUnscored, create_sensor-Keeps, update_sensor-Keeps, delete_sensor-Keeps,
  set_sensor_enabled-Keeps, settings-Keeps, update_settings-Keeps, trust-Keeps,
}
use trust_aware_self_healing.Api.Frame.Pipeline.{reading-Keeps, inject_fault-Keeps}
use trust_aware_self_healing.Api.Frame.Accounts.{
  register-Keeps, google_login-Keeps, forgot_password-Keeps, reset_password-Keeps,
}
use trust_aware_self_healing.Api.Frame.All.{KeepsCore, handle-Keeps, serve-Keeps}
use trust_aware_self_healing.System.{
  Step, Reachable, request, time, failures, detector_training, regressor_training, start, later,
}

module _ (env : Env) where
  open env use {floats.{F}}

  -- The raw readings that were there at first, and others behind them.
  abbrev pub Extends : List (Reading F) → State env → Type 0
  Extends old s = (new : List (Reading F)) × (env.mongo.documents s.sensor_readings ≡ old ++ new)

  module _ (old : List (Reading F)) where
    readings_peripheral : IsPeripheral env (Extends old)
    readings_peripheral = record {
      stable = λ s rest h. h;
      actuator = record { write = λ s c n h. h };
      actuator_event = record { write = λ s c n h. h };
      rule = record { write = λ s c n h. h };
      node = record { write = λ s c n h. h };
      node_command = record { write = λ s c n h. h };
      prediction = record { write = λ s c n h. h };
      trusted_reading = record { write = λ s c n h. h };
      detector = λ s m h. h;
      regressor = λ s m h. h;
      push = λ s p h. h;
    }

    readings_unscored : IsUnscored env (Extends old)
    readings_unscored = record {
      sensor = record { write = λ s c n h. h };
      health = record { write = λ s c n h. h };
      setting = record { write = λ s c n h. h };
      event = record { write = λ s c n h. h };
    }

    IsFree-users : IsFree env (Extends old) (users env)
    IsFree-users = record { write = λ s c n h. h }

    IsFree-tokens : IsFree env (Extends old) (password_reset_tokens env)
    IsFree-tokens = record { write = λ s c n h. h }

    stable : IsStable env (Extends old)
    stable s rest h = h

    module _ (laws : IsMongo env.mongo) where
      insert-Extends :
          (make : ℕ → Reading F) → Keeps (Extends old) (insert_one env (sensor_readings env) make)
      insert-Extends make = Keeps-insert_one env _ stable (sensor_readings env) make λ s (new, e). (
        new ++ (make s.next_id ∷ []),
        laws.documents-insert _ _
            ∙ ap (λ ds. ds ++ (make s.next_id ∷ [])) e
            ∙ append_assoc old new (make s.next_id ∷ []),
      )

      readings_core : KeepsCore env (Extends old) (λ r. Unit {0})
      readings_core = record {
        create_sensor =
            λ payload v. create_sensor-Keeps env _ readings_peripheral readings_unscored payload;
        update_sensor = λ k payload v.
            update_sensor-Keeps env _ readings_peripheral readings_unscored k payload;
        delete_sensor = delete_sensor-Keeps env _ readings_peripheral readings_unscored;
        set_sensor_enabled = set_sensor_enabled-Keeps env _ readings_peripheral readings_unscored;
        create_reading = λ payload v.
            reading-Keeps env _ readings_peripheral insert-Extends
              (trust-Keeps env _ readings_peripheral readings_unscored) payload;
        inject_fault = λ draw k t offset v.
            inject_fault-Keeps env _ readings_peripheral insert-Extends
              (trust-Keeps env _ readings_peripheral readings_unscored) draw k t offset;
        get_settings = settings-Keeps env _ readings_peripheral readings_unscored;
        update_settings =
            λ payload v. update_settings-Keeps env _ readings_peripheral readings_unscored payload;
        register =
            λ salt payload v. register-Keeps env _ stable IsFree-users IsFree-tokens salt payload;
        google_login =
            λ id_token v. google_login-Keeps env _ stable IsFree-users IsFree-tokens id_token;
        forgot_password =
            λ raw email v. forgot_password-Keeps env _ stable IsFree-users IsFree-tokens raw email;
        reset_password = λ salt raw new_password v.
            reset_password-Keeps env _ stable IsFree-users IsFree-tokens salt raw new_password;
      }

      Step-Extends : (s t : State env) → Step env s t → Extends old s → Extends old t
      Step-Extends _ _ (request r s) h =
          serve-Keeps env (Extends old) (λ r. Unit {0})
            (λ q v u. handle-Keeps env _ _ readings_peripheral readings_core q u) r s tt h
      Step-Extends _ _ (time now s) h = h
      Step-Extends _ _ (failures outages s) h = h
      Step-Extends _ _ (detector_training file s) h = h
      Step-Extends _ _ (regressor_training file s) h = h

      Reachable-Extends : (s t : State env) → Reachable env s t → Extends old s → Extends old t
      Reachable-Extends _ _ (start s) h = h
      Reachable-Extends _ _ (later s u t path step) h =
          Step-Extends u t step (Reachable-Extends s u path h)

  -- With a driver that meets its laws: whatever HTTP requests are served, whatever fails in between,
  -- the raw readings that were stored stay, unchanged and in their order, and new ones stand behind
  -- them.
  pub sensor_readings_append_only :
      (laws : IsMongo env.mongo) (s t : State env)
      → Reachable env s t
      → (new : List (Reading F)) × (env.mongo.documents t.sensor_readings
          ≡ env.mongo.documents s.sensor_readings ++ new)
  sensor_readings_append_only laws s t path =
      Reachable-Extends (env.mongo.documents s.sensor_readings) laws s t path
        ([], sym (append-nil (env.mongo.documents s.sensor_readings)))
