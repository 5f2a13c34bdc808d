-- ===== src/NodeService.antt =====
-- services/node_service.py: the nodes, their heartbeats, and the lazy downgrade of a quiet node. A time
-- is a number of microseconds.
pub mod Liveness
pub mod Frame
use trust_aware_self_healing.Shared.{
  ℕ, ◌+◌, ◌*◌, Bool, true, false, ◌||◌, Option, none, some, List, [], ◌∷◌, String, str_eq, leb,
  is_some, or_else, set_if_given, if◌then◌else◌,
}
use trust_aware_self_healing.Models.{Node, NodeStatus, NodeCreate, NodeUpdate, online, offline}
use trust_aware_self_healing.Store.Run.{Run, pure, ◌>>=◌, ◌>>◌}
use trust_aware_self_healing.Store.Db.{Env, State, nodes}
use trust_aware_self_healing.Store.Driver.{now_utc, find, insert_one, update_one, delete_one}
use trust_aware_self_healing.Updates.{flag_is, read_back, update_fields}
use trust_aware_self_healing.Validators.{ensure_unique, ensure_exists}

abbrev pub offline_after_seconds : ℕ
offline_after_seconds = 90

abbrev pub is_node : String → Node → Bool
is_node node_id d = str_eq d.node_id node_id

abbrev pub new_node : NodeCreate → ℕ → Node
new_node payload now = record {
  node_id = payload.node_id;
  name = payload.name;
  location = payload.location;
  ip_address = payload.ip_address;
  enabled = payload.enabled;
  status = NodeStatus.unknown;
  last_seen = none;
  created_at = now;
  updated_at = now;
}

abbrev pub has_changes : NodeUpdate → Bool
has_changes u = is_some u.name || is_some u.location || is_some u.ip_address || is_some u.enabled

abbrev pub apply_changes : NodeUpdate → ℕ → Node → Node
apply_changes u now d = record d {
  name = or_else u.name d.name;
  location = or_else u.location d.location;
  ip_address = set_if_given u.ip_address d.ip_address;
  enabled = or_else u.enabled d.enabled;
  updated_at = now;
}

-- `now_utc() - last_seen <= timedelta(seconds=OFFLINE_AFTER_SECONDS)` fails.
abbrev pub is_quiet_for : ℕ → Option ℕ → Bool
is_quiet_for now none = false
is_quiet_for now (some last_seen) =
    if leb now (last_seen + offline_after_seconds * 1000000) then false else true

-- The three early returns of `_maybe_mark_offline`.
unfoldable pub is_stale : ℕ → Node → Bool
is_stale now d = elim d.status [
  | NodeStatus.online ↦ is_quiet_for now d.last_seen
  | NodeStatus.offline ↦ false
  | NodeStatus.unknown ↦ false
]

abbrev pub marked_offline : ℕ → Node → Node
marked_offline now d = record d { status = offline; updated_at = now }

-- `if ip_address:` does not hold of the empty string.
abbrev pub reported_ip : Option String → Option String → Option String
reported_ip none old = old
reported_ip (some ip) old = if str_eq ip "" then old else some ip

abbrev pub alive : Option String → ℕ → Node → Node
alive ip_address now d = record d {
  status = online;
  last_seen = some now;
  ip_address = reported_ip ip_address d.ip_address;
  updated_at = now;
}

module _ (env : Env) where
  unfoldable pub create_node : NodeCreate → Run (State env) Node
  create_node payload = do
    ensure_unique env (nodes env) (is_node payload.node_id)
    now ← now_utc env
    insert_one env (nodes env) (λ _. new_node payload now)
    pure (new_node payload now)

  -- The returned document keeps its `updated_at`: only its status is changed in place.
  unfoldable pub mark_offline : Node → Run (State env) Node
  mark_offline doc = do
    now ← now_utc env
    update_one env (nodes env) (is_node doc.node_id) (marked_offline now)
    pure (record doc { status = offline })

  unfoldable pub maybe_mark_offline : Node → Run (State env) Node
  unfolding mark_offline
  maybe_mark_offline doc = do
    now ← now_utc env
    (if is_stale now doc then mark_offline doc else pure doc)

  unfoldable pub mark_all : List Node → Run (State env) (List Node)
  mark_all [] = pure []
  mark_all (d ∷ ds) = do doc ← maybe_mark_offline d; docs ← mark_all ds; pure (doc ∷ docs)

  unfoldable pub list_nodes : Option Bool → Run (State env) (List Node)
  list_nodes enabled = do
    docs ←
        find env (nodes env) (λ d. flag_is enabled d.enabled) (λ d e. leb d.created_at e.created_at)
    mark_all docs

  unfoldable pub get_node : String → Run (State env) Node
  get_node node_id = do
    doc ← ensure_exists env (nodes env) (is_node node_id)
    maybe_mark_offline doc

  unfoldable pub update_node : String → NodeUpdate → Run (State env) Node
  update_node node_id payload = do
    ensure_exists env (nodes env) (is_node node_id)
    update_fields env (nodes env) (is_node node_id) (has_changes payload) (apply_changes payload)

  unfoldable pub delete_node : String → Run (State env) (Unit {0})
  delete_node node_id = do
    ensure_exists env (nodes env) (is_node node_id)
    delete_one env (nodes env) (is_node node_id)

  unfoldable pub record_heartbeat : String → Option String → Run (State env) Node
  record_heartbeat node_id ip_address = do
    ensure_exists env (nodes env) (is_node node_id)
    now ← now_utc env
    update_one env (nodes env) (is_node node_id) (alive ip_address now)
    read_back env (nodes env) (is_node node_id)
