-- ===== src/ActuatorService/Overrides.antt =====
-- services/actuator_service.py and services/actuator.py side by side: a manual command that comes
-- between the automation's read of the actuator and its write.
use trust_aware_self_healing.Shared.{◌≡◌, refl, true, Option, some, [], String}
use trust_aware_self_healing.Mongo.{IsMongo}
use trust_aware_self_healing.Models.{Actuator, ActuatorMode, ActuatorState, command_of}
use trust_aware_self_healing.Store.Run.{Result, ok, err}
use trust_aware_self_healing.Store.Db.{Env, State, actuators}
use trust_aware_self_healing.Store.Quiet.{Post}
use trust_aware_self_healing.Updates.Laws.{Has}
use trust_aware_self_healing.ActuatorControl.{is_actuator, accepts, write_state, apply_to}
use trust_aware_self_healing.ActuatorControl.Writes.{write_state-Total}
use trust_aware_self_healing.ActuatorService.{mode_after, send_command}
use trust_aware_self_healing.ActuatorService.Commands.{after_command, send_command-Total}
use trust_aware_self_healing.ReadingService.ManualOverride.{HasActuator}

module _ (env : Env) (laws : IsMongo env.mongo) (k : String) where
  -- With a driver that meets its laws, and while no driver call fails: if a manual ON or OFF is carried
  -- out after the automation has read the actuator as one that it may change, and before it writes,
  -- then the actuator ends in MANUAL mode, but in the state that the automation wanted.
  pub manual_override-overtaken :
      (human desired : ActuatorState) (sensor_id : String) (value : env.floats.F) (rule_id : String)
      (s : State env) (d : Actuator)
      → s.outages ≡ []
      → HasActuator env k d s
      → accepts d desired ≡ true
      → let between = (send_command env k (command_of human) s).1 in
        let last = (apply_to env (some d) k desired sensor_id value rule_id between).1 in
        (e : Actuator) × HasActuator env k e last
        × (e.mode ≡ ActuatorMode.manual)
        × (e.state ≡ desired)
  unfolding apply_to
  manual_override-overtaken human desired sensor_id value rule_id s d quiet known accepted =
      let (r, between) = send_command env k (command_of human) s in
      rw accepted (
        written r between (
          (send_command-Total env laws k (command_of human) s.clock d).run s
            (record { quiet = quiet; time = refl; stored = known })))
    where
      Overtaken : State env → Type 0
      Overtaken last =
          (e : Actuator) × HasActuator env k e last
          × (e.mode ≡ ActuatorMode.manual)
          × (e.state ≡ desired)

      mode_is : (human : ActuatorState) → mode_after (command_of human) ≡ ActuatorMode.manual
      mode_is ActuatorState.on = refl
      mode_is ActuatorState.off = refl

      found :
          (e : Actuator) (r : Result (Option Actuator)) (last : State env)
          → e.mode ≡ ActuatorMode.manual
          → e.state ≡ desired
          → Post
              (λ x after. Has env (actuators env) (is_actuator k) s.clock e after × (x ≡ some e))
              (r, last)
          → Overtaken last
      found e (ok x) last m t q = (e, q.0.stored, m, t)
      found e (err x) last m t q = absurd q

      written :
          (r : Result Actuator) (between : State env)
          → Post
              (λ x after.
                Has env
                  (actuators env)
                  (is_actuator k)
                  s.clock
                  (after_command env laws k (command_of human) s.clock d)
                  after
                × (x ≡ after_command env laws k (command_of human) s.clock d))
              (r, between)
          → Overtaken (write_state env d k desired sensor_id value rule_id between).1
      written (ok x) between q =
          let (r', last) = write_state env d k desired sensor_id value rule_id between in
          found _ r' last (mode_is human) refl (
            (write_state-Total env laws k desired sensor_id value rule_id d s.clock _).run between
              q.0)
      written (err x) between q = absurd q
