-- ===== src/Failover/Tests.antt =====
-- A topology with a failed node, and a cycle over it.
use vpn_suite.Prelude.{
  all, is_some, lookup, ◌||◌, ℕ, ◌+◌, ◌*◌, ◌/◌, ◌≤◌, ◌≡◌, refl, true, false, not, List, [], ◌∷◌,
  Option, none, some, arith, String, string_eq, ◌==◌, ltb, leb, ◌&&◌, if◌then◌else◌, All, Result,
  ok, err,
}
use vpn_suite.Balancer.Select.{Node, Scores, best, best_from}
use vpn_suite.Balancer.Best.{IsOrdered}
use vpn_suite.Devices.Rows.{Device}
use vpn_suite.Rebalance.Node.{Watermarks, has_live_status}
use vpn_suite.Rebalance.Moves.{send, receivers, max_slots}
use vpn_suite.Rebalance.Plan.{
  plan_rebalance, is_overloaded, is_underloaded, receiver_slots_from, movable, send_all,
  is_pinned_limited,
}
use vpn_suite.Reconcile.Apply.{returned}
use vpn_suite.Reconcile.Peer.{PeerConfigLike}
use vpn_suite.Reconcile.Nodes.{Adapter}
use vpn_suite.Migrate.Peer.{migrate_peer}
use vpn_suite.Migrate.Candidates.{qos_migration_key, qos_before, stats_map_from}
use vpn_suite.Migrate.Execute.{Limits, Context, execute_rebalance_plan}
use vpn_suite.Failover.Evaluate.{is_failed, evaluate_failover}
use vpn_suite.Failover.Evaluate.Maps.{IsMapped, evaluate_failover-IsMapped}
use vpn_suite.Failover.Sync.{Server, sync_server_provisioning_state}
use vpn_suite.Failover.Sync.Settles.{sync_again}
use vpn_suite.Failover.Cycle.{CycleError, AutomationRun, CycleState, Options, run_automation_cycle}
use vpn_suite.Failover.Cycle.Bounds.{cycle_bounded}

abbrev node : String → String → ℕ → Node
node id status peers = record {
  node_id = id;
  status = status;
  peer_count = peers;
  max_peers = 10;
  is_draining = false;
  capabilities = [];
}

-- The fewer peers, the greater the score; a degraded node's health is below one half.
abbrev scores : Scores
scores = record {
  is_degraded_at_least = λ n. not (n.status == "degraded");
  is_healthy = λ n. true;
  before = λ a b. ltb b.peer_count a.peer_count;
}

scores-IsOrdered : IsOrdered scores
scores-IsOrdered = record { asym = λ a b h. ground arith; step = λ a b c h k. ground arith }

abbrev regions : String → Option String
regions k = if k == "n3" then some "us" else some "eu"

abbrev topology : List Node
topology = node "n1" "degraded" 4 ∷ node "n2" "healthy" 9 ∷ node "n3" "healthy" 0 ∷ []

evaluate_failover-IsMapped_example :
    All (IsMapped scores regions topology) (evaluate_failover scores regions topology).0.mappings
    × (all
          (λ n.
            not (is_failed scores n)
            || is_some (lookup n.node_id (evaluate_failover scores regions topology).0.mappings))
          topology
        ≡ true)
evaluate_failover-IsMapped_example =
    evaluate_failover-IsMapped scores regions topology scores-IsOrdered

-- The failed node is the fallback with the greatest score of its own region.
mapped_to_itself : (evaluate_failover scores regions topology).0.mappings ≡ ("n1", some "n1") ∷ []
unfolding evaluate_failover best best_from
mapped_to_itself = refl

abbrev servers : List Server
servers = record { id = "n1"; is_active = true } ∷ record { id = "n2"; is_active = false } ∷ []

sync_changes :
    sync_server_provisioning_state (λ n. n.status == "degraded") topology servers
    ≡ (1, 1, record { id = "n1"; is_active = false } ∷ record { id = "n2"; is_active = true } ∷ [])
unfolding sync_server_provisioning_state
sync_changes = refl

sync_twice :
    let after = (sync_server_provisioning_state (λ n. n.status == "degraded") topology servers).2 in
    sync_server_provisioning_state (λ n. n.status == "degraded") topology after ≡ (0, 0, after)
sync_twice = sync_again (λ n. n.status == "degraded") topology servers (refl, (refl, (refl, tt)))

abbrev marks : Watermarks
marks = record {
  is_high = λ p m. leb (85 * m) (100 * p);
  is_low = λ p m. ltb (100 * p) (65 * m);
  target = λ m. 65 * m / 100;
  by_load = λ ns. ns;
}

abbrev Held : Type 0
Held = String → String → Option PeerConfigLike

abbrev cluster : Adapter
cluster = record {
  State = Held;
  add_peer = λ n p s. (returned, λ m k. if n == m && p.public_key == k then some p else s m k);
  remove_peer = λ n j s. (returned, λ m k. if n == m && j == k then none else s m k);
  list_peers = λ n s. (returned, []);
  ensure_reply_routes = λ n s. (returned, s);
  discover_nodes = λ s. (returned, []);
}

abbrev device : Device
device = record {
  id = "d1";
  subscription_id = "sub1";
  issued_at = 0;
  server_id = "n2";
  public_key = "k1";
  allowed_ips = some "10.8.1.2/32";
  preshared_key = none;
  revoked_at = none;
  suspended_at = none;
  expires_at = none;
  apply_status = some "APPLIED";
  last_applied_at = none;
  last_error = none;
  unstable_reason = none;
}

abbrev context : Context Held
context = record {
  subscriptions =
      record {
        id = "sub1";
        user_id = 1;
        plan_id = "p1";
        valid_from = 0;
        valid_until = 100;
        status = "active";
      }
      ∷ [];
  plans = record { id = "p1"; name = "Basic" } ∷ [];
  lower = λ s. s;
  enterprise_setting = "";
  qos = record { idle_handshake_seconds = 180; hot_traffic_bytes = 1000 };
  now = 1000;
  list_stats = λ n s. some [];
}

abbrev limits : Limits
limits = record {
  batch_size = 5;
  max_executions_per_cycle = 2;
  stop_on_error = true;
  rollback_on_error = true;
}

abbrev options : Options
options = record {
  inverted = false;
  max_moves_per_node = 3;
  execute_rebalance = true;
  has_adapter = true;
  sync_server_state = true;
}

abbrev before : CycleState Held
before = record {
  fleet = record { device = device; stored_server_id = "n2" } ∷ [];
  nodes = λ m k. none;
  servers = servers;
  events = [];
}

abbrev run : Result CycleError (AutomationRun × CycleState Held)
run =
    run_automation_cycle marks (λ k. 0) scores regions (λ n. n.status == "degraded") cluster context
      limits options topology before

abbrev state_of : Result CycleError (AutomationRun × CycleState Held) → CycleState Held
state_of (ok (r, st)) = st
state_of (err e) = before

abbrev summary : AutomationRun
summary = record {
  failed_nodes = 1;
  rebalance_moves = 1;
  rebalance_peers_to_move = 3;
  rebalance_execution_enabled = true;
  executed_migrations = 1;
  failed_migrations = 0;
  rollback_migrations = 0;
  rollback_failures = 0;
  stop_reason = none;
  executions =
      record {
        source_node_id = "n2";
        target_node_id = "n3";
        requested = 3;
        attempted = 1;
        succeeded = 1;
        failed = 0;
        rolled_back = 0;
        rollback_failed = 0;
        skipped_enterprise = 0;
        status = "partial";
      }
      ∷ [];
  paused_nodes = 1;
  resumed_nodes = 1;
  severity = "warning";
}

completed : run ≡ ok (summary, state_of run)
unfolding run_automation_cycle plan_rebalance is_overloaded is_underloaded has_live_status
    receiver_slots_from movable send_all send receivers max_slots is_pinned_limited
    evaluate_failover execute_rebalance_plan migrate_peer qos_before qos_migration_key
    stats_map_from sync_server_provisioning_state
completed = refl

cycle_moves_one : 1 + 0 ≤ 2
cycle_moves_one =
    cycle_bounded marks (λ k. 0) scores regions (λ n. n.status == "degraded") cluster context limits
      options topology before (state_of run) summary completed
