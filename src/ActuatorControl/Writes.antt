-- ===== src/ActuatorControl/Writes.antt =====
-- services/actuator.py: what an automatic command leaves of its actuator.
use mathlib.Core.Path.{subst}
use trust_aware_self_healing.Shared.{
  ℕ, ◌≡◌, refl, sym, ap, ◌∙◌, Bool, true, false, ◌&&◌, not, Option, none, some, [], String,
  Bool-cases, inl, inr, arith, if◌then◌else◌,
}
use trust_aware_self_healing.Mongo.{IsMongo}
use trust_aware_self_healing.Models.{
  Actuator, ActuatorMode, ActuatorState, ActuatorCommand, mode_eq, state_eq, command_of,
}
use trust_aware_self_healing.Store.Run.{Result, ok, err, type_error}
use trust_aware_self_healing.Store.Db.{Env, State, actuators, actuator_events}
use trust_aware_self_healing.Store.Quiet.{
  Total, Post, Total-bind, Total-pure, Total-find_one, Total-now_utc, Total-insert_one,
  Total-update_one,
}
use trust_aware_self_healing.Updates.Laws.{Has, IsTable, found-Total, update_one-Has}
use trust_aware_self_healing.ActuatorControl.{
  is_actuator, accepts, automated, write_state, apply_to, apply_automated_state,
}
use trust_aware_self_healing.ActuatorControl.Dispatch.{try_dispatch_to_node-Total}

pub actuators-IsTable : (env : Env) (k : String) → IsTable env (actuators env) (is_actuator k)
actuators-IsTable env k = record {
  get-put = λ c s. refl;
  outages-put = λ c s. refl;
  clock-put = λ c s. refl;
}

module _ (env : Env) (laws : IsMongo env.mongo) (k : String) (desired : ActuatorState)
    (sensor_id : String) (value : env.floats.F) (rule_id : String) where
  abbrev Knows : ℕ → Actuator → State env → Type 0
  Knows = Has env (actuators env) (is_actuator k)

  -- The write goes by the document that is stored now, whatever document was read before.
  pub write_state-Total :
      (read : Actuator) (now : ℕ) (d : Actuator)
      → Total (Knows now d) (write_state env read k desired sensor_id value rule_id) (λ r s.
        Knows now (automated desired sensor_id now d) s
        × (r ≡ some (automated desired sensor_id now d)))
  unfolding write_state
  write_state-Total read now d =
      Total-bind _ _ (λ n s. Knows now d s × (now ≡ n)) _
        (Total-now_utc env (λ s h. h.quiet) _ (λ s h. (h, sym h.time)))
        λ n.
          Total-bind _ _ (λ _. Knows now (automated desired sensor_id now d)) _
            (Total-update_one env (λ s h. h.0.quiet) (actuators env) _ _ _
              (λ s (h, same).
                subst
                  (λ m. Knows now (automated desired sensor_id m d) (record s {
                    actuators =
                        env.mongo.update_one (is_actuator k) (automated desired sensor_id n)
                          s.actuators;
                  }))
                  (sym same)
                  (update_one-Has env (actuators env) (is_actuator k) laws (actuators-IsTable env k)
                    now d (automated desired sensor_id n) s (λ e m. m) h)))
            λ u.
              Total-bind _ _ (λ _. Knows now (automated desired sensor_id now d)) _
                (Total-insert_one env (λ s h. h.quiet) (actuator_events env) _ _
                  (λ s h. record { quiet = h.quiet; time = h.time; stored = h.stored }))
                λ i.
                  Total-bind _ _ (λ _. Knows now (automated desired sensor_id now d)) _
                    (try_dispatch_to_node-Total env _ (λ s h. h.quiet)
                      (λ s c n h. record { quiet = h.quiet; time = h.time; stored = h.stored })
                      (λ s p h. record { quiet = h.quiet; time = h.time; stored = h.stored })
                      read.node_id k (command_of desired))
                    λ v.
                      Total-bind _ _ _ _
                        (Total-find_one env (λ s h. h.quiet) (actuators env) _ _
                          (λ s h. (h, h.stored)))
                        λ found.
                          Total-bind _ _ _ _
                            (found-Total env (actuators env) (is_actuator k) now _ type_error found)
                            λ result. Total-pure _ _ (λ s (h, same). (h, ap some same))

  -- What an automatic command makes of the document, and what it returns.
  abbrev pub after_automation : ℕ → Actuator → Actuator
  after_automation now d = if accepts d desired then automated desired sensor_id now d else d

  abbrev pub returned : ℕ → Actuator → Option Actuator
  returned now d = if accepts d desired then some (automated desired sensor_id now d) else none

  apply_to-Total :
      (now : ℕ) (d : Actuator)
      → Total
          (Knows now d)
          (apply_to env (some d) k desired sensor_id value rule_id)
          (λ r s. Knows now (after_automation now d) s × (r ≡ returned now d))
  unfolding apply_to
  apply_to-Total now d = elim (Bool-cases (accepts d desired)) [
    | inl accepted ↦ rw accepted (write_state-Total d now d)
    | inr refused ↦ rw refused (Total-pure _ _ (λ s h. (h, refl)))
  ]

  apply-Total :
      (now : ℕ) (d : Actuator)
      → Total
          (Knows now d)
          (apply_automated_state env k desired sensor_id value rule_id)
          (λ r s. Knows now (after_automation now d) s × (r ≡ returned now d))
  unfolding apply_automated_state
  apply-Total now d =
      Total-bind _ _ (λ o s. Knows now d s × (o ≡ some d)) _
        (Total-find_one env (λ s h. h.quiet) (actuators env) _ _ (λ s h. (h, h.stored)))
        λ o. record {
          run = λ s (h, same).
              (subst
                  (λ x.
                    Total (Knows now d) (apply_to env x k desired sensor_id value rule_id)
                      (λ r s. Knows now (after_automation now d) s × (r ≡ returned now d)))
                  (sym same) (apply_to-Total now d)).run
                s h;
        }

  stored :
      (now : ℕ) (e : Actuator) (o : Option Actuator) (r : Result (Option Actuator)) (s : State env)
      → Post (λ r after. Knows now e after × (r ≡ o)) (r, s)
      → (r ≡ ok o) × (env.mongo.find_one (is_actuator k) s.actuators ≡ some e)
  stored now e o (ok x) s q = (ap ok q.1, q.0.stored)
  stored now e o (err x) s q = absurd q

  -- Enabled, in AUTO mode, and in the other state than the one that is wanted.
  abbrev pub is_switched : Bool → ActuatorMode → ActuatorState → ActuatorState → Bool
  is_switched true ActuatorMode.auto ActuatorState.off ActuatorState.on = true
  is_switched true ActuatorMode.auto ActuatorState.on ActuatorState.off = true
  is_switched _ _ _ _ = false

  abbrev pub switched : ActuatorState → ℕ → Actuator → Actuator
  switched ActuatorState.on now d = record d {
    state = ActuatorState.on;
    last_command = some ActuatorCommand.on;
    controlling_sensor = some sensor_id;
    updated_at = now;
  }
  switched ActuatorState.off now d = record d {
    state = ActuatorState.off;
    last_command = some ActuatorCommand.off;
    controlling_sensor = some sensor_id;
    updated_at = now;
  }

  accepts_lem : (d : Actuator) → accepts d desired ≡ is_switched d.enabled d.mode d.state desired
  unfolding accepts
  accepts_lem d = by_fields d.enabled d.mode d.state desired
    where
      by_fields :
          (enabled : Bool) (mode : ActuatorMode) (state wanted : ActuatorState)
          → (enabled && mode_eq mode ActuatorMode.auto && not (state_eq state wanted))
            ≡ is_switched enabled mode state wanted
      by_fields false mode state wanted = refl
      by_fields true ActuatorMode.manual state wanted = refl
      by_fields true ActuatorMode.auto ActuatorState.on ActuatorState.on = refl
      by_fields true ActuatorMode.auto ActuatorState.on ActuatorState.off = refl
      by_fields true ActuatorMode.auto ActuatorState.off ActuatorState.on = refl
      by_fields true ActuatorMode.auto ActuatorState.off ActuatorState.off = refl

  automated_lem :
      (wanted : ActuatorState) (now : ℕ) (d : Actuator)
      → automated wanted sensor_id now d ≡ switched wanted now d
  automated_lem ActuatorState.on now d = refl
  automated_lem ActuatorState.off now d = refl

  -- With a driver that meets its laws, and while no driver call fails: an automatic command to an
  -- actuator that exists sets its state, command, sensor and time, and returns the document, exactly if
  -- the actuator is enabled, in AUTO mode and in the other state; otherwise it returns nothing and
  -- leaves the document.
  pub apply_automated_state-stores :
      (s : State env) (d : Actuator)
      → s.outages ≡ []
      → env.mongo.find_one (is_actuator k) s.actuators ≡ some d
      → let (r, after) = apply_automated_state env k desired sensor_id value rule_id s in
        let switches = is_switched d.enabled d.mode d.state desired in
        (r ≡ ok (if switches then some (switched desired s.clock d) else none))
        × (env.mongo.find_one (is_actuator k) after.actuators
            ≡ some (if switches then switched desired s.clock d else d))
  apply_automated_state-stores s d quiet known =
      let (r, after) = apply_automated_state env k desired sensor_id value rule_id s in
      rw (← accepts_lem d, ← automated_lem desired s.clock d)
        (stored s.clock (after_automation s.clock d) (returned s.clock d) r after
          ((apply-Total s.clock d).run s (record { quiet = quiet; time = refl; stored = known })))

  settled : (now : ℕ) (d : Actuator) → accepts (after_automation now d) desired ≡ false
  unfolding accepts
  settled now d = ground arith

  -- With a driver that meets its laws, and while no driver call fails: the same automatic command a
  -- second time does nothing to the actuator and returns nothing.
  pub apply_automated_state-idempotent :
      (s : State env) (d : Actuator)
      → s.outages ≡ []
      → env.mongo.find_one (is_actuator k) s.actuators ≡ some d
      → let once = (apply_automated_state env k desired sensor_id value rule_id s).1 in
        let (r, twice) = apply_automated_state env k desired sensor_id value rule_id once in
        (r ≡ ok none)
        × (env.mongo.find_one (is_actuator k) twice.actuators
            ≡ env.mongo.find_one (is_actuator k) once.actuators)
  apply_automated_state-idempotent s d quiet known =
      let (r, once) = apply_automated_state env k desired sensor_id value rule_id s in
      again s.clock r once
        ((apply-Total s.clock d).run s (record { quiet = quiet; time = refl; stored = known }))
    where
      again :
          (now : ℕ) (r : Result (Option Actuator)) (once : State env)
          → Post
              (λ x after. Knows now (after_automation now d) after × (x ≡ returned now d))
              (r, once)
          → let (r', twice) = apply_automated_state env k desired sensor_id value rule_id once in
            (r' ≡ ok none)
            × (env.mongo.find_one (is_actuator k) twice.actuators
                ≡ env.mongo.find_one (is_actuator k) once.actuators)
      again now (ok x) once (h, e) =
          let d' = after_automation now d in
          let (r', twice) = apply_automated_state env k desired sensor_id value rule_id once in
          let q =
            stored now (after_automation now d') (returned now d') r' twice
              ((apply-Total now d').run once h) in
          (
            q.0
                ∙ ap (λ b. ok (if b then some (automated desired sensor_id now d') else none))
                    (settled now d),
            q.1
                ∙ (ap (λ b. some (if b then automated desired sensor_id now d' else d'))
                      (settled now d)
                    ∙ sym h.stored),
          )
      again now (err x) once h = absurd h
