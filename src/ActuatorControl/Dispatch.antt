-- ===== src/ActuatorControl/Dispatch.antt =====
-- services/actuator.py, `_try_dispatch_to_node`: the delivery of a command while no driver call fails.
use trust_aware_self_healing.Shared.{ℕ, ◌≡◌, refl, Option, none, some, List, String, str_eq}
use trust_aware_self_healing.Models.{ActuatorCommand, Node, NodeCommand}
use trust_aware_self_healing.Store.Run.{Result, ok, err, pure, attempt, on_success, ◌>>=◌, ◌>>◌}
use trust_aware_self_healing.Store.Db.{Env, State, Push, nodes, node_commands}
use trust_aware_self_healing.Store.Driver.{find_one}
use trust_aware_self_healing.Store.Quiet.{
  IsQuiet, Total, Total-bind, Total-pure, Total-if, Total-attempt, Total-find_one, Total-now_utc,
  Total-insert_one,
}
use trust_aware_self_healing.NodeCommands.{enqueue_command, send, push_to, push_command_to_node}
use trust_aware_self_healing.ActuatorControl.{push_if_known, dispatch, try_dispatch_to_node}

module _ (env : Env) (P : State env → Type 0) (quiet : (s : State env) → P s → IsQuiet env s)
    (queued : (s : State env) (c : env.mongo.Coll NodeCommand) (n : ℕ)
      → P s
      → P (record s { node_commands = c; next_id = n }))
    (pushed : (s : State env) (p : List Push) → P s → P (record s { pushes = p })) where
  push_to-Total :
      (ip : Option String) (k : String) (command : ActuatorCommand) (i : ℕ)
      → Total P (push_to env ip k command i) (λ _. P)
  unfolding push_to send
  push_to-Total none k command i = Total-pure _ _ (λ s h. h)
  push_to-Total (some ip) k command i =
      Total-if (str_eq ip "") _ _ _ (Total-pure _ _ (λ s h. h))
        (record { run = λ s h. pushed s _ h })

  push_if_known-Total :
      (node : Option Node) (k : String) (command : ActuatorCommand) (i : ℕ)
      → Total P (push_if_known env node k command i) (λ _. P)
  unfolding push_if_known push_command_to_node
  push_if_known-Total none k command i = Total-pure _ _ (λ s h. h)
  push_if_known-Total (some node) k command i = push_to-Total node.ip_address k command i

  dispatch-Total :
      (node_id k : String) (command : ActuatorCommand)
      → Total P (dispatch env node_id k command) (λ _. P)
  unfolding dispatch enqueue_command
  dispatch-Total node_id k command =
      Total-bind _ _ (λ r s. P s × ((q : NodeCommand) × (r ≡ ok q))) _
        (Total-attempt _ (λ _. P) _
          (Total-bind _ _ (λ _. P) _ (Total-now_utc env quiet _ (λ s h. h))
            λ now.
              Total-bind _ _ (λ _. P) _
                (Total-insert_one env quiet (node_commands env) _ _ (λ s h. queued s _ _ h))
                λ i. Total-pure _ _ (λ s h. h))
          (λ a s h. (h, (a, refl))))
        λ r. after_queue r
    where
      push :
          (q : NodeCommand)
          → Total P
              (do
                attempt (do
                  node ← find_one env (nodes env) (λ d. str_eq d.node_id node_id)
                  push_if_known env node k command q.id)
                pure tt)
              (λ _. P)
      push q =
          Total-bind _ _ (λ _. P) _
            (Total-attempt _ (λ _. P) _
              (Total-bind _ _ (λ _. P) _ (Total-find_one env quiet (nodes env) _ _ (λ s h. h))
                λ node. push_if_known-Total node k command q.id)
              (λ a s h. h))
            λ r. Total-pure _ _ (λ s h. h)

      after_queue :
          (r : Result NodeCommand)
          → Total
              (λ s. P s × ((q : NodeCommand) × (r ≡ ok q)))
              (on_success r (λ q. do
                attempt (do
                  node ← find_one env (nodes env) (λ d. str_eq d.node_id node_id)
                  push_if_known env node k command q.id)
                pure tt))
              (λ _. P)
      after_queue (ok q) = record { run = λ s h. (push q).run s h.0 }
      after_queue (err e) = Total-pure _ _ (λ s h. h.0)

  pub try_dispatch_to_node-Total :
      (node_id : Option String) (k : String) (command : ActuatorCommand)
      → Total P (try_dispatch_to_node env node_id k command) (λ _. P)
  unfolding try_dispatch_to_node
  try_dispatch_to_node-Total none k command = Total-pure _ _ (λ s h. h)
  try_dispatch_to_node-Total (some node_id) k command =
      Total-if (str_eq node_id "") _ _ _ (Total-pure _ _ (λ s h. h))
        (dispatch-Total node_id k command)
