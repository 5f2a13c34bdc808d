-- ===== src/ActuatorService/Commands.antt =====
-- services/actuator_service.py: what a manual command leaves, and how long it lasts.
use mathlib.Core.Path.{subst}
use trust_aware_self_healing.Shared.{
  some, ℕ, ◌≡◌, refl, sym, ap, Bool, true, List, [], ◌∷◌, String, arith,
}
use trust_aware_self_healing.Mongo.{IsMongo}
use trust_aware_self_healing.Models.{
  Actuator, ActuatorCommand, ActuatorState, ActuatorMode, command_of, SensorReadingCreate,
}
use trust_aware_self_healing.Store.Run.{Run, Result, ok, err, ◌>>=◌, ◌>>◌}
use trust_aware_self_healing.Store.Db.{Env, State, actuators, actuator_events}
use trust_aware_self_healing.Store.Driver.{now_utc, insert_one, update_one}
use trust_aware_self_healing.Store.Quiet.{
  Total, Post, Total-bind, Total-now_utc, Total-insert_one, Total-update_one,
}
use trust_aware_self_healing.Updates.{read_back}
use trust_aware_self_healing.Updates.Laws.{
  Has, ensure_exists-Total, read_back-Total, update_one-Has,
}
use trust_aware_self_healing.ActuatorControl.Dispatch.{try_dispatch_to_node-Total}
use trust_aware_self_healing.ActuatorControl.Writes.{actuators-IsTable}
use trust_aware_self_healing.ActuatorControl.{is_actuator, try_dispatch_to_node}
use trust_aware_self_healing.ActuatorService.{
  commanded, state_after, mode_after, manual_event, send_command,
}
use trust_aware_self_healing.ReadingService.{create_reading}
use trust_aware_self_healing.ActuatorControl.Manual.{is_held}
use trust_aware_self_healing.ReadingService.ManualOverride.{HasActuator, held_actuator_unchanged}

module _ (env : Env) (laws : IsMongo env.mongo) (k : String) where
  open env use {floats.{F}}

  -- The document after the command.
  abbrev pub after_command : ActuatorCommand → ℕ → Actuator → Actuator
  after_command command now d = commanded command (state_after command d.state) now d

  -- The rest of `send_command`, from the document that it read first.
  abbrev command_from : ActuatorCommand → Actuator → Run (State env) Actuator
  command_from command current = do
    now ← now_utc env
    update_one env (actuators env) (is_actuator k)
        (commanded command (state_after command current.state) now)
    insert_one env (actuator_events env) (manual_event env current k command now)
    try_dispatch_to_node env current.node_id k command
    read_back env (actuators env) (is_actuator k)

  command_from-Total :
      (command : ActuatorCommand) (now : ℕ) (d : Actuator)
      → Total (Has env (actuators env) (is_actuator k) now d) (command_from command d) (λ r s.
        Has env (actuators env) (is_actuator k) now (after_command command now d) s
        × (r ≡ after_command command now d))
  command_from-Total command now d =
      Total-bind _ _ (λ n s. Has env (actuators env) (is_actuator k) now d s × (now ≡ n)) _
        (Total-now_utc env (λ s h. h.quiet) _ (λ s h. (h, sym h.time)))
        λ n.
          Total-bind _ _
            (λ _. Has env (actuators env) (is_actuator k) now (after_command command now d)) _
            (Total-update_one env (λ s h. h.0.quiet) (actuators env) _ _ _
              (λ s (h, same).
                subst
                  (λ m.
                    Has env (actuators env) (is_actuator k) now (after_command command m d)
                      (record s {
                        actuators =
                            env.mongo.update_one (is_actuator k) (after_command_of n) s.actuators;
                      }))
                  (sym same)
                  (update_one-Has env (actuators env) (is_actuator k) laws (actuators-IsTable env k)
                    now d (after_command_of n) s (λ e m. m) h)))
            λ u.
              Total-bind _ _
                (λ _. Has env (actuators env) (is_actuator k) now (after_command command now d)) _
                (Total-insert_one env (λ s h. h.quiet) (actuator_events env) _ _
                  (λ s h. record { quiet = h.quiet; time = h.time; stored = h.stored }))
                λ i.
                  Total-bind _ _
                    (λ _. Has env (actuators env) (is_actuator k) now (after_command command now d))
                    _
                    (try_dispatch_to_node-Total env _ (λ s h. h.quiet)
                      (λ s c n h. record { quiet = h.quiet; time = h.time; stored = h.stored })
                      (λ s p h. record { quiet = h.quiet; time = h.time; stored = h.stored })
                      d.node_id k command)
                    λ v. read_back-Total env (actuators env) (is_actuator k) now _
    where
      after_command_of : ℕ → Actuator → Actuator
      after_command_of n = commanded command (state_after command d.state) n

  pub send_command-Total :
      (command : ActuatorCommand) (now : ℕ) (d : Actuator)
      → Total (Has env (actuators env) (is_actuator k) now d) (send_command env k command) (λ r s.
        Has env (actuators env) (is_actuator k) now (after_command command now d) s
        × (r ≡ after_command command now d))
  unfolding send_command
  send_command-Total command now d =
      Total-bind _ _ _ _ (ensure_exists-Total env (actuators env) (is_actuator k) now d) λ current.
        record {
          run = λ s (h, same).
              (subst
                  (λ c.
                    Total (Has env (actuators env) (is_actuator k) now d) (command_from command c)
                      (λ r s.
                        Has env (actuators env) (is_actuator k) now (after_command command now d) s
                        × (r ≡ after_command command now d)))
                  (sym same) (command_from-Total command now d)).run
                s h;
        }

  send_command-after :
      (command : ActuatorCommand) (s : State env) (d : Actuator)
      → s.outages ≡ []
      → HasActuator env k d s
      → ((send_command env k command s).0 ≡ ok (after_command command s.clock d))
        × HasActuator env k (after_command command s.clock d) (send_command env k command s).1
  send_command-after command s d quiet known =
      let (r, s') = send_command env k command s in
      stored (after_command command s.clock d) r s' (
        (send_command-Total command s.clock d).run s
          (record { quiet = quiet; time = refl; stored = known }))
    where
      stored :
          (e : Actuator) (r : Result Actuator) (s' : State env)
          → Post
              (λ r after. Has env (actuators env) (is_actuator k) s.clock e after × (r ≡ e))
              (r, s')
          → (r ≡ ok e) × HasActuator env k e s'
      stored e (ok x) s' q = (ap ok q.1, q.0.stored)
      stored e (err x) s' q = absurd q

  -- The document that each command promises.
  abbrev pub promised : ActuatorCommand → ℕ → Actuator → Actuator
  promised ActuatorCommand.on now d = record d {
    mode = ActuatorMode.manual;
    state = ActuatorState.on;
    last_command = some ActuatorCommand.on;
    updated_at = now;
  }
  promised ActuatorCommand.off now d = record d {
    mode = ActuatorMode.manual;
    state = ActuatorState.off;
    last_command = some ActuatorCommand.off;
    updated_at = now;
  }
  promised ActuatorCommand.auto now d = record d {
    mode = ActuatorMode.auto;
    last_command = some ActuatorCommand.auto;
    updated_at = now;
  }

  after_command_lem :
      (command : ActuatorCommand) (now : ℕ) (d : Actuator)
      → after_command command now d ≡ promised command now d
  after_command_lem ActuatorCommand.on now d = refl
  after_command_lem ActuatorCommand.off now d = refl
  after_command_lem ActuatorCommand.auto now d = refl

  -- With a driver that meets its laws: while no driver call fails, a manual command to an actuator that
  -- exists returns the document that is then stored: ON makes it MANUAL and on, OFF makes it MANUAL and
  -- off, AUTO makes it AUTO in the state it is in; the command and the time are set, and the rest
  -- stays.
  pub send_command-stores :
      (command : ActuatorCommand) (s : State env) (d : Actuator)
      → s.outages ≡ []
      → HasActuator env k d s
      → ((send_command env k command s).0 ≡ ok (promised command s.clock d))
        × HasActuator env k (promised command s.clock d) (send_command env k command s).1
  send_command-stores command s d quiet known =
      rw (← after_command_lem command s.clock d) (send_command-after command s d quiet known)

  -- The state after a run of readings, each whatever comes of it.
  abbrev pub after_readings : List (SensorReadingCreate F) → State env → State env
  after_readings [] s = s
  after_readings (payload ∷ rest) s = after_readings rest (create_reading env payload s).1

  held_through :
      (d : Actuator) (payloads : List (SensorReadingCreate F)) (s : State env)
      → is_held d ≡ true
      → HasActuator env k d s
      → HasActuator env k d (after_readings payloads s)
  held_through d [] s held h = h
  held_through d (payload ∷ rest) s held h =
      held_through d rest (create_reading env payload s).1 held
        (held_actuator_unchanged env laws k d held payload s h)

  -- With a driver that meets its laws, a human's ON or OFF to an actuator that exists lasts: once it is
  -- given while no driver call fails, any number of readings later the actuator is still in MANUAL mode
  -- and in the state that was commanded, whatever calls fail then.
  pub manual_command-lasts :
      (desired : ActuatorState) (s : State env) (d : Actuator) (outages : List Bool)
      (payloads : List (SensorReadingCreate F))
      → s.outages ≡ []
      → HasActuator env k d s
      → let commanded_state = (send_command env k (command_of desired) s).1 in
        let later = after_readings payloads (record commanded_state { outages = outages }) in
        (e : Actuator) × HasActuator env k e later
        × (e.mode ≡ ActuatorMode.manual)
        × (e.state ≡ desired)
  manual_command-lasts desired s d outages payloads quiet known = (
    after_command (command_of desired) s.clock d,
    held_through _ payloads _ (is_manual desired)
        (send_command-after (command_of desired) s d quiet known).1,
    mode_is desired,
    state_is desired,
  )
    where
      is_manual :
          (desired : ActuatorState) → is_held (after_command (command_of desired) s.clock d) ≡ true
      is_manual ActuatorState.on = ground arith
      is_manual ActuatorState.off = ground arith

      mode_is : (desired : ActuatorState) → mode_after (command_of desired) ≡ ActuatorMode.manual
      mode_is ActuatorState.on = refl
      mode_is ActuatorState.off = refl

      state_is : (desired : ActuatorState) → state_after (command_of desired) d.state ≡ desired
      state_is ActuatorState.on = refl
      state_is ActuatorState.off = refl
