-- ===== src/Examples/Histories.antt =====
-- A history of the system.
use trust_aware_self_healing.Shared.{true, ◌∷◌, [], List, ◌++◌, ◌≡◌, refl}
use trust_aware_self_healing.Shared.Int.{ℤ}
use trust_aware_self_healing.Floats.Fixed.{fixed-IsOrdered, fixed-IsExact}
use trust_aware_self_healing.Mongo.Listed.{listed-IsMongo}
use trust_aware_self_healing.Models.{ActuatorMode, ActuatorCommand, Reading}
use trust_aware_self_healing.Store.Db.{State}
use trust_aware_self_healing.TrustEngine.Scored.{IsScored}
use trust_aware_self_healing.System.{Reachable, request, failures, start, later}
use trust_aware_self_healing.System.Readings.{sensor_readings_append_only}
use trust_aware_self_healing.System.Accounts.{HasAccounts, accounts_untouched}
use trust_aware_self_healing.Api.{Request, serve}
use trust_aware_self_healing.System.Scores.{Reachable-IsScored}
use trust_aware_self_healing.System.Health.{sensor_health_answered}
use trust_aware_self_healing.Examples.Database.{env, database, reading_of}
use trust_aware_self_healing.Examples.Pipeline.{database-IsScored}

abbrev quiet : State env
quiet = database ActuatorMode.auto []

abbrev hot : Request ℤ
hot = Request.create_reading (reading_of 99)

abbrev read : State env
read = (serve env hot quiet).1

-- The next driver call is about to fail.
abbrev flaky : State env
flaky = record read { outages = true ∷ [] }

abbrev fan_on : Request ℤ
fan_on = Request.send_command "FAN_01" ActuatorCommand.on

abbrev commanded : State env
commanded = (serve env fan_on flaky).1

history : Reachable env quiet commanded
history =
    later quiet flaky commanded
      (later quiet read flaky (later quiet quiet read (start quiet) (request hot quiet))
        (failures (true ∷ []) read))
      (request fan_on flaky)

Reachable-IsScored_example : IsScored env commanded
Reachable-IsScored_example =
    Reachable-IsScored env listed-IsMongo fixed-IsOrdered (fixed-IsExact 105) quiet commanded
      history (database-IsScored ActuatorMode.auto [])

sensor_readings_append_only_example :
    (new : List (Reading ℤ)) × (commanded.sensor_readings ≡ [] ++ new)
sensor_readings_append_only_example =
    sensor_readings_append_only env listed-IsMongo quiet commanded history

-- All driver calls succeed again.
abbrev recovered : State env
recovered = record read { outages = [] }

sensor_health_answered_example : (serve env (Request.list_sensor_health 0) recovered).0.status ≡ 200
sensor_health_answered_example =
    sensor_health_answered env listed-IsMongo fixed-IsOrdered (fixed-IsExact 105) quiet recovered
      (later quiet read recovered (later quiet quiet read (start quiet) (request hot quiet))
        (failures [] read))
      (database-IsScored ActuatorMode.auto []) refl 0

accounts_untouched_example : HasAccounts env [] [] (serve env hot quiet).1
accounts_untouched_example = accounts_untouched env hot quiet refl
