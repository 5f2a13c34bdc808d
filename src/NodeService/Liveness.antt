-- ===== src/NodeService/Liveness.antt =====
-- services/node_service.py: heartbeats, and when a node counts as offline.
use mathlib.Core.Path.{subst}
use trust_aware_self_healing.Shared.{
  ℕ, ◌+◌, ◌*◌, ◌≡◌, refl, sym, ◌∙◌, Bool, true, false, Option, some, [], String, str_eq, eq_iff,
  leb, arith, if◌then◌else◌,
}
use trust_aware_self_healing.Mongo.{IsMongo}
use trust_aware_self_healing.Models.{Node, NodeStatus, online, offline}
use trust_aware_self_healing.Store.Run.{Result, ok, err, pure}
use trust_aware_self_healing.Store.Db.{Env, State, nodes}
use trust_aware_self_healing.Store.Driver.{update_one}
use trust_aware_self_healing.Store.Quiet.{
  Total, Post, Total-bind, Total-pure, Total-weaken, Total-now_utc, Total-update_one,
}
use trust_aware_self_healing.Updates.Laws.{
  Has, IsTable, ensure_exists-Total, read_back-Total, update_one-Has,
}
use trust_aware_self_healing.NodeService.{
  is_node, is_stale, marked_offline, alive, mark_offline, maybe_mark_offline, get_node,
  record_heartbeat,
}

module _ (env : Env) (laws : IsMongo env.mongo) (k : String) where
  -- The document of node k.
  abbrev pub HasNode : Node → State env → Type 0
  HasNode d s = env.mongo.find_one (is_node k) s.nodes ≡ some d

  abbrev Knows : ℕ → Node → State env → Type 0
  Knows = Has env (nodes env) (is_node k)

  nodes-IsTable : IsTable env (nodes env) (is_node k)
  nodes-IsTable = record {
    get-put = λ c s. refl;
    outages-put = λ c s. refl;
    clock-put = λ c s. refl;
  }

  -- An update of the document by the time of the clock.
  stamp-Total :
      (now : ℕ) (d : Node) (f : ℕ → Node → Node)
      → ((n : ℕ) (x : Node) → is_node k x ≡ true → is_node k (f n x) ≡ true)
      → (n : ℕ)
      → Total
          (λ s. Knows now d s × (now ≡ n))
          (update_one env (nodes env) (is_node k) (f n))
          (λ _. Knows now (f now d))
  stamp-Total now d f keep n =
      Total-update_one env (λ s h. h.0.quiet) (nodes env) _ _ _
        (λ s (h, same).
          subst
            (λ m.
              Knows now (f m d)
                (record s { nodes = env.mongo.update_one (is_node k) (f n) s.nodes }))
            (sym same)
            (update_one-Has env (nodes env) (is_node k) laws nodes-IsTable now d (f n) s (keep n)
              h))

  heartbeat-Total :
      (ip : Option String) (now : ℕ) (d : Node)
      → Total
          (Knows now d)
          (record_heartbeat env k ip)
          (λ r s. Knows now (alive ip now d) s × (r ≡ alive ip now d))
  unfolding record_heartbeat
  heartbeat-Total ip now d =
      Total-bind _ _ (λ _. Knows now d) _
        (Total-weaken _ _ _ (ensure_exists-Total env (nodes env) (is_node k) now d) (λ a s h. h.0))
        λ found.
          Total-bind _ _ (λ n s. Knows now d s × (now ≡ n)) _
            (Total-now_utc env (λ s h. h.quiet) _ (λ s h. (h, sym h.time)))
            λ n.
              Total-bind _ _ _ _ (stamp-Total now d (alive ip) (λ m x q. q) n)
                λ u. read_back-Total env (nodes env) (is_node k) now _

  -- What a read of node d at a given time shows of it.
  abbrev pub status_at : ℕ → Node → NodeStatus
  status_at now d = if is_stale now d then offline else d.status

  -- The node is stored with the status that is shown.
  abbrev Downgraded : ℕ → Node → Node → State env → Type 0
  Downgraded now d r s =
      (r.status ≡ status_at now d) × ((e : Node) × Knows now e s × (e.status ≡ status_at now d))

  maybe_mark_offline-Total :
      (now : ℕ) (d : Node)
      → str_eq d.node_id k ≡ true
      → (stale : Bool) → is_stale now d ≡ stale
      → Total (λ s. Knows now d s) (if stale then mark_offline env d else pure d) (Downgraded now d)
  unfolding mark_offline
  maybe_mark_offline-Total now d own true is_true =
      Total-bind _ _ (λ n s. Knows now d s × (now ≡ n)) _
        (Total-now_utc env (λ s h. h.quiet) _ (λ s h. (h, sym h.time)))
        λ n.
          Total-bind _ _ (λ _. Knows now (marked_offline now d)) _
            (subst
              (λ j.
                Total (λ s. Knows now d s × (now ≡ n))
                  (update_one env (nodes env) (is_node j) (marked_offline n))
                  (λ _. Knows now (marked_offline now d)))
              (sym ((eq_iff d.node_id k).0 own)) (stamp-Total now d marked_offline (λ m x q. q) n))
            λ u. Total-pure _ _ (λ s h. rw is_true (refl, (marked_offline now d, h, refl)))
  maybe_mark_offline-Total now d own false is_false =
      Total-pure _ _ (λ s h. rw is_false (refl, (d, h, refl)))

  get_node-Total :
      (now : ℕ) (d : Node)
      → str_eq d.node_id k ≡ true
      → Total (Knows now d) (get_node env k) (Downgraded now d)
  unfolding get_node maybe_mark_offline
  get_node-Total now d own =
      Total-bind _ _ _ _ (ensure_exists-Total env (nodes env) (is_node k) now d) λ found.
        Total-bind _ _ (λ n s. Knows now d s × (found ≡ d) × (now ≡ n)) _
          (Total-now_utc env (λ s h. h.0.quiet) _ (λ s h. (h.0, h.1, sym h.0.time)))
          λ n. record {
            run = λ s (h, same, time).
                (subst
                    (λ x.
                      Total (Knows now d) (if is_stale n x then mark_offline env x else pure x)
                        (Downgraded now d))
                    (sym same)
                    (subst
                      (λ m.
                        Total (Knows now d) (if is_stale m d then mark_offline env d else pure d)
                          (Downgraded now d))
                      time (maybe_mark_offline-Total now d own (is_stale now d) refl))).run
                  s h;
          }

  -- The state at a later time.
  abbrev pub at_time : ℕ → State env → State env
  at_time now s = record s { clock = now }

  -- With a driver that meets its laws: while no driver call fails, a known node that sent a heartbeat
  -- at time c is shown as ONLINE at time t, and stored so, if t is at most 90 seconds after c, and as
  -- OFFLINE, and stored so, if it is more.
  pub heartbeat-get_node :
      (ip : Option String) (s : State env) (d : Node) (t : ℕ)
      → s.outages ≡ []
      → HasNode d s
      → let shown = if leb t (s.clock + 90 * 1000000) then online else offline in
        let later = get_node env k (at_time t (record_heartbeat env k ip s).1) in
        (r : Node) × (later.0 ≡ ok r)
        × (r.status ≡ shown)
        × ((e : Node) × HasNode e later.1 × (e.status ≡ shown))
  unfolding is_stale
  heartbeat-get_node ip s d t quiet known =
      let (r, s') = record_heartbeat env k ip s in
      after_heartbeat r s' (
        (heartbeat-Total ip s.clock d).run s
          (record { quiet = quiet; time = refl; stored = known }))
    where
      shown : NodeStatus
      shown = if leb t (s.clock + 90 * 1000000) then online else offline

      status_is_shown : status_at t (alive ip s.clock d) ≡ shown
      status_is_shown = ground arith

      Result_shown : Result Node × State env → Type 0
      Result_shown later =
          (r : Node) × (later.0 ≡ ok r)
          × (r.status ≡ shown)
          × ((e : Node) × HasNode e later.1 × (e.status ≡ shown))

      after_get :
          (r : Result Node) (s' : State env)
          → Post (Downgraded t (alive ip s.clock d)) (r, s')
          → Result_shown (r, s')
      after_get (ok r) s' (q, (e, h, q')) =
          (r, refl, q ∙ status_is_shown, (e, h.stored, q' ∙ status_is_shown))
      after_get (err e) s' q = absurd q

      after_heartbeat :
          (r : Result Node) (s' : State env)
          → Post
              (λ r after. Knows s.clock (alive ip s.clock d) after × (r ≡ alive ip s.clock d))
              (r, s')
          → Result_shown (get_node env k (at_time t s'))
      after_heartbeat (ok r) s' (h, same) =
          let (r', after) = get_node env k (at_time t s') in
          after_get r' after (
            (get_node-Total t (alive ip s.clock d)
                (laws.find_one_matches (is_node k) s.nodes d known)).run
              (at_time t s') (record { quiet = h.quiet; time = refl; stored = h.stored }))
      after_heartbeat (err e) s' q = absurd q
