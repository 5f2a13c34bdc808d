-- ===== src/System/Accounts.antt =====
-- The accounts of the states that the system reaches: the endpoints outside routes/auth.py take no
-- token, and none of them touches an account.
use trust_aware_self_healing.Shared.{ℕ, ◌≡◌, refl, Bool, true, false}
use trust_aware_self_healing.Models.{User, ResetToken, Reading}
use trust_aware_self_healing.Store.Db.{Env, State, sensor_readings}
use trust_aware_self_healing.Store.Driver.{insert_one}
use trust_aware_self_healing.Store.Keeps.{Keeps, IsStable}
use trust_aware_self_healing.Store.Frame.{free-insert_one}
use trust_aware_self_healing.Api.Requests.{Request}
use trust_aware_self_healing.Api.Serving.{serve}
use trust_aware_self_healing.Api.Frame.{IsPeripheral}
use trust_aware_self_healing.Api.Frame.Sensors.{
  IsUnscored, create_sensor-Keeps, update_sensor-Keeps, delete_sensor-Keeps,
  set_sensor_enabled-Keeps, settings-Keeps, update_settings-Keeps, trust-Keeps,
}
use trust_aware_self_healing.Api.Frame.Pipeline.{reading-Keeps, inject_fault-Keeps}
use trust_aware_self_healing.Api.Frame.All.{KeepsCore, handle-Keeps, serve-Keeps}

-- The requests that may write to the accounts.
abbrev pub writes_accounts : {F : Type 0} → Request F → Bool
writes_accounts (Request.register salt payload) = true
writes_accounts (Request.google_login id_token) = true
writes_accounts (Request.forgot_password raw_token email) = true
writes_accounts (Request.reset_password salt raw_token new_password) = true
writes_accounts _ = false

module _ (env : Env) where
  open env use {floats.{F}, mongo.{Coll}}

  abbrev pub HasAccounts : Coll User → Coll ResetToken → State env → Type 0
  HasAccounts u t s = (s.users ≡ u) × (s.password_reset_tokens ≡ t)

  module _ (u : Coll User) (t : Coll ResetToken) where
    accounts_peripheral : IsPeripheral env (HasAccounts u t)
    accounts_peripheral = record {
      stable = λ s rest h. h;
      actuator = record { write = λ s c n h. h };
      actuator_event = record { write = λ s c n h. h };
      rule = record { write = λ s c n h. h };
      node = record { write = λ s c n h. h };
      node_command = record { write = λ s c n h. h };
      prediction = record { write = λ s c n h. h };
      trusted_reading = record { write = λ s c n h. h };
      detector = λ s m h. h;
      regressor = λ s m h. h;
      push = λ s p h. h;
    }

    accounts_unscored : IsUnscored env (HasAccounts u t)
    accounts_unscored = record {
      sensor = record { write = λ s c n h. h };
      health = record { write = λ s c n h. h };
      setting = record { write = λ s c n h. h };
      event = record { write = λ s c n h. h };
    }

    stable : IsStable env (HasAccounts u t)
    stable s rest h = h

    insert_reading-HasAccounts :
        (make : ℕ → Reading F) → Keeps (HasAccounts u t) (insert_one env (sensor_readings env) make)
    insert_reading-HasAccounts make =
        free-insert_one env _ stable (sensor_readings env) make (record { write = λ s c n h. h })

    accounts_core : KeepsCore env (HasAccounts u t) (λ r. writes_accounts r ≡ false)
    accounts_core = record {
      create_sensor =
          λ payload v. create_sensor-Keeps env _ accounts_peripheral accounts_unscored payload;
      update_sensor =
          λ k payload v. update_sensor-Keeps env _ accounts_peripheral accounts_unscored k payload;
      delete_sensor = delete_sensor-Keeps env _ accounts_peripheral accounts_unscored;
      set_sensor_enabled = set_sensor_enabled-Keeps env _ accounts_peripheral accounts_unscored;
      create_reading = λ payload v.
          reading-Keeps env _ accounts_peripheral insert_reading-HasAccounts
            (trust-Keeps env _ accounts_peripheral accounts_unscored) payload;
      inject_fault = λ draw k t offset v.
          inject_fault-Keeps env _ accounts_peripheral insert_reading-HasAccounts
            (trust-Keeps env _ accounts_peripheral accounts_unscored) draw k t offset;
      get_settings = settings-Keeps env _ accounts_peripheral accounts_unscored;
      update_settings =
          λ payload v. update_settings-Keeps env _ accounts_peripheral accounts_unscored payload;
      register = λ salt payload v. cc;
      google_login = λ id_token v. cc;
      forgot_password = λ raw email v. cc;
      reset_password = λ salt raw new_password v. cc;
    }

  -- A request that is not a registration, a Google sign-in or one of the two password requests, served
  -- in any state, leaves the accounts and the reset tokens as they are, whatever it answers and
  -- whatever fails.
  pub accounts_untouched :
      (r : Request F) (s : State env)
      → writes_accounts r ≡ false
      → HasAccounts s.users s.password_reset_tokens (serve env r s).1
  accounts_untouched r s other =
      serve-Keeps env _ (λ q. writes_accounts q ≡ false)
        (λ q v w.
          handle-Keeps env _ _ (accounts_peripheral s.users s.password_reset_tokens)
            (accounts_core s.users s.password_reset_tokens) q w)
        r s other (refl, refl)
