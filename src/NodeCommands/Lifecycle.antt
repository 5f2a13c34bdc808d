-- ===== src/NodeCommands/Lifecycle.antt =====
-- services/node_command_service.py: a command from the queue to its acknowledgement.
use trust_aware_self_healing.Shared.{
  ℕ, suc, ◌≡◌, refl, ◌∙◌, Bool, true, false, ◌&&◌, ◌==◌, Bool-cases, inl, inr, none, some, [],
  String, str_eq, arith, if◌then◌else◌,
}
use trust_aware_self_healing.Mongo.{IsMongo}
use trust_aware_self_healing.Models.{ActuatorCommand, NodeCommand, pending, acked}
use trust_aware_self_healing.Store.Run.{ok, err, not_found, ◌>>=◌}
use trust_aware_self_healing.Store.Db.{Env, State}
use trust_aware_self_healing.Store.Driver.{now_utc, find_one, insert_one, update_one}
use trust_aware_self_healing.Store.Quiet.{driver-IsQuiet}
use trust_aware_self_healing.NodeCommands.{enqueue_command, acknowledge_command, mark_acked}

module _ (env : Env) (laws : IsMongo env.mongo) where
  -- No stored command has the id that comes next.
  abbrev pub IsFresh : State env → Type 0
  IsFresh s =
      (p : NodeCommand → Bool)
      → ((d : NodeCommand) → p d ≡ true → (d.id == s.next_id) ≡ true)
      → env.mongo.find_one p s.node_commands ≡ none

  -- The command as it is queued.
  abbrev pub queued : String → String → ActuatorCommand → ℕ → ℕ → NodeCommand
  queued node_id actuator_id command now i = record {
    id = i;
    node_id = node_id;
    actuator_id = actuator_id;
    command = command;
    status = pending;
    created_at = now;
    acked_at = none;
  }

  -- The command as it comes back.
  abbrev pub acknowledged : String → String → ActuatorCommand → ℕ → ℕ → NodeCommand
  acknowledged node_id actuator_id command now i = record {
    id = i;
    node_id = node_id;
    actuator_id = actuator_id;
    command = command;
    status = acked;
    created_at = now;
    acked_at = some now;
  }

  own_filter :
      (i : ℕ) (m : String) (d : NodeCommand)
      → ((d.id == i) && str_eq d.node_id m) ≡ true
      → (d.id == i) ≡ true
  own_filter i m d h = ground arith

  same_id : (i : ℕ) → (i == i) ≡ true
  same_id i = ground arith

  -- With a driver that meets its laws, while no driver call fails and the next id is fresh: a command
  -- that was queued for a node and is then acknowledged under its id comes back as ACKED at that time
  -- if the same node acknowledges it, and any other node is answered 404.
  pub acknowledge-enqueue :
      (node_id actuator_id other : String) (command : ActuatorCommand) (s : State env)
      → s.outages ≡ []
      → IsFresh s
      → (acknowledge_command env other
          (some s.next_id)
          (enqueue_command env node_id actuator_id command s).1).0
        ≡ (if str_eq node_id other
            then ok (acknowledged node_id actuator_id command s.clock s.next_id)
            else err not_found)
  unfolding enqueue_command acknowledge_command find_one insert_one update_one now_utc ◌>>=◌
  acknowledge-enqueue node_id actuator_id other command s quiet fresh =
      let i = s.next_id in
      let q = queued node_id actuator_id command s.clock i in
      let by_both = λ (d : NodeCommand). (d.id == i) && str_eq d.node_id other in
      let by_id = λ (d : NodeCommand). d.id == i in
      let s1 = record s {
        node_commands = env.mongo.insert_one q s.node_commands;
        next_id = suc s.next_id;
      } in
      let here =
        laws.find_one-insert_new by_id q s.node_commands (same_id i) (fresh by_id (λ d h. h)) in
      elim (Bool-cases (str_eq node_id other)) [
        | inl own ↦
            let both =
              laws.find_one-insert_new by_both q s.node_commands (both_true i own)
                (fresh by_both (own_filter i other)) in
            let updated =
              laws.find_one-update by_id (mark_acked env s.clock)
                (env.mongo.insert_one q s.node_commands) (λ d h. h) in
            let s2 = record s1 {
              node_commands = env.mongo.update_one by_id (mark_acked env s.clock) s1.node_commands;
            } in
            rw
              (
                own,
                driver-IsQuiet env _ s quiet,
                driver-IsQuiet env _ s1 quiet,
                both,
                driver-IsQuiet env _ s1 quiet,
                driver-IsQuiet env _ s2 quiet,
                updated,
                here,
              )
              refl
        | inr foreign ↦
            let both =
              laws.find_one-insert_other by_both q s.node_commands (both_false i foreign)
              ∙ fresh by_both (own_filter i other) in
            rw (foreign, driver-IsQuiet env _ s quiet, driver-IsQuiet env _ s1 quiet, both) refl
      ]
    where
      both_true : (i : ℕ) → str_eq node_id other ≡ true → ((i == i) && str_eq node_id other) ≡ true
      both_true i h = ground arith

      both_false :
          (i : ℕ) → str_eq node_id other ≡ false → ((i == i) && str_eq node_id other) ≡ false
      both_false i h = ground arith
