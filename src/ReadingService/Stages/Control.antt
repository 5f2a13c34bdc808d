-- ===== src/ReadingService/Stages/Control.antt =====
-- The automation stage keeps what each automated command keeps.
use trust_aware_self_healing.Shared.{ℕ, String, Option, none, some, List, [], ◌∷◌, str_eq}
use trust_aware_self_healing.Models.{
  Actuator, ActuatorState, ActuatorCommand, ActuatorEvent, Node, NodeCommand, TrustedReading,
}
use trust_aware_self_healing.Store.Run.{pure}
use trust_aware_self_healing.Store.Driver.{update_one}
use trust_aware_self_healing.Store.Db.{Env, State, Push, node_commands, actuators, actuator_events}
use trust_aware_self_healing.Store.Keeps.{
  Keeps, IsStable, Keeps-bind, Keeps-pure, Keeps-lift, Keeps-if, Keeps-attempt, Keeps-on_success,
  Keeps-now_utc, Keeps-find_one, Keeps-find, Keeps-insert_one, Keeps-update_one,
}
use trust_aware_self_healing.NodeCommands.{push_to, send, enqueue_command, push_command_to_node}
use trust_aware_self_healing.ActuatorControl.{
  is_actuator, automated, push_if_known, dispatch, try_dispatch_to_node, accepts, apply_to,
  write_state, apply_automated_state,
}
use trust_aware_self_healing.Automation.{apply_all, evaluate_and_apply}
use trust_aware_self_healing.Automation.Rules.{Command}

module _ (env : Env) (P : State env → Type 0) (stable : IsStable env P) where
  open env use {floats.{F}, mongo.{Coll}}

  module _
      (queued : (s : State env) (c : Coll NodeCommand) (n : ℕ)
        → P s
        → P (record s { node_commands = c; next_id = n }))
      (pushed : (s : State env) (p : List Push) → P s → P (record s { pushes = p })) where
    push_to-Keeps :
        (ip : Option String) (actuator_id : String) (command : ActuatorCommand) (i : ℕ)
        → Keeps P (push_to env ip actuator_id command i)
    unfolding push_to send
    push_to-Keeps none actuator_id command i = Keeps-pure _
    push_to-Keeps (some ip) actuator_id command i =
        Keeps-if (str_eq ip "") _ _ (Keeps-pure _)
          (record { at = λ s h. unfold pure in pushed s _ h })

    push_if_known-Keeps :
        (node : Option Node) (actuator_id : String) (command : ActuatorCommand) (i : ℕ)
        → Keeps P (push_if_known env node actuator_id command i)
    unfolding push_if_known push_command_to_node
    push_if_known-Keeps none actuator_id command i = Keeps-pure _
    push_if_known-Keeps (some node) actuator_id command i =
        push_to-Keeps node.ip_address actuator_id command i

    dispatch-Keeps :
        (node_id actuator_id : String) (command : ActuatorCommand)
        → Keeps P (dispatch env node_id actuator_id command)
    unfolding dispatch enqueue_command
    dispatch-Keeps node_id actuator_id command =
        Keeps-bind _ _
          (Keeps-attempt _ (
            Keeps-bind _ _ (Keeps-now_utc env P stable) λ now.
              Keeps-bind _ _
                (Keeps-insert_one env P stable (node_commands env) _ (λ s h. queued s _ _ h))
                λ i. Keeps-pure _))
          λ q. Keeps-on_success q _ λ c.
            Keeps-bind _ _
              (Keeps-attempt _ (
                Keeps-bind _ _ (Keeps-find_one env P stable _ _)
                  λ node. push_if_known-Keeps node actuator_id command c.id))
              λ r. Keeps-pure _

    pub try_dispatch_to_node-Keeps :
        (node_id : Option String) (actuator_id : String) (command : ActuatorCommand)
        → Keeps P (try_dispatch_to_node env node_id actuator_id command)
    unfolding try_dispatch_to_node
    try_dispatch_to_node-Keeps none actuator_id command = Keeps-pure _
    try_dispatch_to_node-Keeps (some node_id) actuator_id command =
        Keeps-if (str_eq node_id "") _ _ (Keeps-pure _) (dispatch-Keeps node_id actuator_id command)

    module _
        (events : (s : State env) (c : Coll (ActuatorEvent F)) (n : ℕ)
          → P s
          → P (record s { actuator_events = c; next_id = n })) where
      -- Over what the update of the one actuator document keeps.
      pub write_state-Keeps :
          (doc : Actuator) (actuator_id : String) (desired : ActuatorState) (sensor_id : String)
          (value : F) (rule_id : String)
          → ((now : ℕ)
              → Keeps P (
                  update_one env
                    (actuators env)
                    (is_actuator actuator_id)
                    (automated desired sensor_id now)))
          → Keeps P (write_state env doc actuator_id desired sensor_id value rule_id)
      unfolding write_state
      write_state-Keeps doc actuator_id desired sensor_id value rule_id update =
          Keeps-bind _ _ (Keeps-now_utc env P stable) λ now. Keeps-bind _ _ (update now) λ u.
            Keeps-bind _ _
              (Keeps-insert_one env P stable (actuator_events env) _ (λ s h. events s _ _ h))
              λ i. Keeps-bind _ _ (try_dispatch_to_node-Keeps doc.node_id actuator_id _) λ v.
                Keeps-bind _ _ (Keeps-find_one env P stable _ _)
                  λ found. Keeps-bind _ _ (Keeps-lift _) λ result. Keeps-pure _

      apply_to-Keeps :
          ((s : State env) (c : Coll Actuator) → P s → P (record s { actuators = c }))
          → (doc : Option Actuator) (actuator_id : String) (desired : ActuatorState)
            (sensor_id : String) (value : F) (rule_id : String)
          → Keeps P (apply_to env doc actuator_id desired sensor_id value rule_id)
      unfolding apply_to
      apply_to-Keeps ignored none actuator_id desired sensor_id value rule_id = Keeps-pure _
      apply_to-Keeps ignored (some doc) actuator_id desired sensor_id value rule_id =
          Keeps-if (accepts doc desired) _ _
            (write_state-Keeps doc actuator_id desired sensor_id value rule_id
              (λ now. Keeps-update_one env P stable (actuators env) _ _ (λ s h. ignored s _ h)))
            (Keeps-pure _)

      pub apply_automated_state-Keeps :
          ((s : State env) (c : Coll Actuator) → P s → P (record s { actuators = c }))
          → (actuator_id : String) (desired : ActuatorState) (sensor_id : String) (value : F)
            (rule_id : String)
          → Keeps P (apply_automated_state env actuator_id desired sensor_id value rule_id)
      unfolding apply_automated_state
      apply_automated_state-Keeps ignored actuator_id desired sensor_id value rule_id =
          Keeps-bind _ _ (Keeps-find_one env P stable _ _)
            λ doc. apply_to-Keeps ignored doc actuator_id desired sensor_id value rule_id

  module _
      (apply : (actuator_id : String) (desired : ActuatorState) (sensor_id : String) (value : F)
          (rule_id : String)
        → Keeps P (apply_automated_state env actuator_id desired sensor_id value rule_id)) where
    apply_all-Keeps :
        (sensor_id : String) (value : F) (commands : List Command)
        → Keeps P (apply_all env sensor_id value commands)
    unfolding apply_all
    apply_all-Keeps sensor_id value [] = Keeps-pure _
    apply_all-Keeps sensor_id value (c ∷ rest) =
        Keeps-bind _ _ (Keeps-attempt _ (apply _ _ _ _ _)) λ r. apply_all-Keeps sensor_id value rest

    pub evaluate_and_apply-Keeps :
        (reading : TrustedReading F) → Keeps P (evaluate_and_apply env reading)
    unfolding evaluate_and_apply
    evaluate_and_apply-Keeps reading =
        Keeps-bind _ _ (Keeps-find env P stable _ _ _) λ rules. apply_all-Keeps _ _ _
