-- ===== src/Migrate/Tests.antt =====
-- Two devices on a source, and a plan that hands them to two receivers.
use vpn_suite.Prelude.{
  ◌≤◌, String, true, Option, none, some, List, [], ◌∷◌, ◌≡◌, refl, arith, ◌==◌, string_eq, ◌&&◌,
  if◌then◌else◌, strip, map, sum, All, ok,
}
use vpn_suite.Devices.Rows.{Device}
use vpn_suite.Rebalance.Moves.{Move}
use vpn_suite.Reconcile.Peer.{PeerConfigLike}
use vpn_suite.Reconcile.Apply.{returned}
use vpn_suite.Reconcile.Nodes.{Adapter}
use vpn_suite.Migrate.Peer.{migrate_peer, address_of, is_unsendable}
use vpn_suite.Migrate.Moves.{placed, IsExact, migrate_peer-config_at}
use vpn_suite.Migrate.Candidates.{
  Tracked, movable_rows, qos_migration_key, qos_before, stats_map_from,
}
use vpn_suite.Migrate.Execute.{
  Execution, Limits, Context, Progress, execute_moves, execute_rebalance_plan,
}
use vpn_suite.Migrate.Execute.Counts.{IsBalanced, made, execution_balances}
use vpn_suite.Migrate.Execute.Again.{without_server, moves_keep_candidates}

abbrev Held : Type 0
Held = String → String → Option PeerConfigLike

abbrev cluster : Adapter
cluster = record {
  State = Held;
  add_peer = λ n p s.
      (returned, λ m k. if n == m && p.public_key == k then some (placed p (s m k)) else s m k);
  remove_peer = λ n j s. (returned, λ m k. if n == m && j == k then none else s m k);
  list_peers = λ n s. (returned, []);
  ensure_reply_routes = λ n s. (returned, s);
  discover_nodes = λ s. (returned, []);
}

cluster-IsExact : IsExact cluster
cluster-IsExact = record {
  config_at = λ s. s;
  add_peer_sets = λ n p s h m k. refl;
  add_peer_others = λ n p s m k h. ground arith;
  remove_peer_drops = λ n j s h m k. refl;
}

abbrev device : String → String → Device
device id address = record {
  id = id;
  subscription_id = "sub1";
  issued_at = 0;
  server_id = "src";
  public_key = id;
  allowed_ips = some address;
  preshared_key = some "psk";
  revoked_at = none;
  suspended_at = none;
  expires_at = none;
  apply_status = some "APPLIED";
  last_applied_at = none;
  last_error = none;
  unstable_reason = none;
}

abbrev d1 : Device
d1 = device "d1" "10.8.1.2/32"

abbrev holding : Held
holding n k =
    if n == "src" && k == "d1"
    then some (record {
      public_key = "d1";
      allowed_ips = some "10.8.1.2/32";
      preshared_key = some "psk";
      persistent_keepalive = 25;
    })
    else none

migrated : Held
migrated = (migrate_peer cluster d1 "a" holding).1

ran : migrate_peer cluster d1 "a" holding ≡ (ok (record d1 { server_id = "a" }), migrated)
unfolding migrate_peer migrated
ran = refl

migrate_peer-config_at_example :
    (record d1 { server_id = "a" } ≡ record d1 { server_id = "a" })
    × (migrated "a" "d1"
        ≡ some (record {
          public_key = "d1";
          allowed_ips = some "10.8.1.2/32";
          preshared_key = none;
          persistent_keepalive = 25;
        }))
unfolding cluster-IsExact address_of strip is_unsendable
migrate_peer-config_at_example =
    migrate_peer-config_at cluster cluster-IsExact d1 (record d1 { server_id = "a" }) "a" holding
      migrated "a" "d1" refl refl ran

abbrev context : Context Held
context = record {
  subscriptions =
      record {
        id = "sub1";
        user_id = 1;
        plan_id = "p1";
        valid_from = 0;
        valid_until = 100;
        status = "active";
      }
      ∷ [];
  plans = record { id = "p1"; name = "Basic" } ∷ [];
  lower = λ s. s;
  enterprise_setting = "";
  qos = record { idle_handshake_seconds = 180; hot_traffic_bytes = 1000 };
  now = 1000;
  list_stats = λ n s. some [];
}

abbrev limits : Limits
limits = record {
  batch_size = 5;
  max_executions_per_cycle = 9;
  stop_on_error = true;
  rollback_on_error = true;
}

abbrev fleet : List Tracked
fleet =
    record { device = d1; stored_server_id = "src" }
    ∷ record { device = device "d2" "10.8.1.3/32"; stored_server_id = "src" }
    ∷ []

abbrev plan : List Move
plan =
    record { source_node_id = "src"; target_node_id = "a"; peers_to_move = 1 }
    ∷ record { source_node_id = "src"; target_node_id = "b"; peers_to_move = 1 }
    ∷ []

abbrev start : Progress Held
start = record { fleet = fleet; nodes = holding; remaining_budget = 9 }

-- The second move takes the device that the first has just moved, and the other one stays.
moved_twice :
    map
      (λ (t : Tracked). t.device.server_id)
      (execute_rebalance_plan cluster context limits plan fleet holding).2.fleet
    ≡ "b" ∷ "src" ∷ []
unfolding execute_rebalance_plan qos_before qos_migration_key stats_map_from migrate_peer
moved_twice = refl

both_succeed :
    map
      (λ (e : Execution). e.succeeded)
      (execute_rebalance_plan cluster context limits plan fleet holding).0
    ≡ 1 ∷ 1 ∷ []
unfolding execute_rebalance_plan qos_before qos_migration_key stats_map_from migrate_peer
both_succeed = refl

execution_balances_example :
    All (IsBalanced limits) (execute_rebalance_plan cluster context limits plan fleet holding).0
    × (sum (map made (execute_rebalance_plan cluster context limits plan fleet holding).0) ≤ 9)
execution_balances_example = execution_balances cluster context limits plan fleet holding

moves_keep_candidates_example :
    map without_server (
      movable_rows context.subscriptions context.plans "src"
        (execute_moves cluster context limits plan start).2.fleet)
    ≡ map without_server (movable_rows context.subscriptions context.plans "src" fleet)
moves_keep_candidates_example = moves_keep_candidates cluster context limits "src" plan start
