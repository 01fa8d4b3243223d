-- ===== src/Traffic/Tests.antt =====
-- A device over its server's limit, blocked and given back.
use vpn_suite.Prelude.{
  String, true, false, Option, none, some, List, [], ◌∷◌, ◌≡◌, refl, arith, ◌==◌, string_eq, ◌&&◌,
  if◌then◌else◌, is_truthy, strip,
}
use vpn_suite.Devices.Rows.{Device}
use vpn_suite.Reconcile.Peer.{PeerConfigLike, is_valid_server_allowed_ips}
use vpn_suite.Reconcile.Diff.{compute_diff, normalized}
use vpn_suite.Reconcile.Apply.{returned, ReconciliationResult, no_result, Settings, apply_diff}
use vpn_suite.Reconcile.Nodes.{Adapter, World, reconcile_node, result, ids_of, db_peers_of}
use vpn_suite.Migrate.Moves.{placed, IsExact}
use vpn_suite.Migrate.Candidates.{PeerStats}
use vpn_suite.Traffic.Check.{
  MeteredServer, traffic_by_key, excess_of, check_server, run_limits_check,
}
use vpn_suite.Traffic.Returns.{address_at, blocked_peer_returns}

abbrev Held : Type 0
Held = String → String → Option PeerConfigLike

abbrev cluster : Adapter
cluster = record {
  State = Held;
  add_peer = λ n p s.
      (returned, λ m k. if n == m && p.public_key == k then some (placed p (s m k)) else s m k);
  remove_peer = λ n j s. (returned, λ m k. if n == m && j == k then none else s m k);
  list_peers = λ n s. (returned, []);
  ensure_reply_routes = λ n s. (returned, s);
  discover_nodes = λ s. (returned, []);
}

cluster-IsExact : IsExact cluster
cluster-IsExact = record {
  config_at = λ s. s;
  add_peer_sets = λ n p s h m k. refl;
  add_peer_others = λ n p s m k h. ground arith;
  remove_peer_drops = λ n j s h m k. refl;
}

abbrev device : Device
device = record {
  id = "d1";
  subscription_id = "sub1";
  issued_at = 0;
  server_id = "n1";
  public_key = "k1";
  allowed_ips = some "10.8.1.2/32";
  preshared_key = none;
  revoked_at = none;
  suspended_at = none;
  expires_at = none;
  apply_status = some "APPLIED";
  last_applied_at = none;
  last_error = none;
  unstable_reason = none;
}

abbrev server : MeteredServer
server = record { id = "n1"; is_active = true; limit_bytes = some 100 }

abbrev holding : Held
holding m k =
    if "n1" == m && "k1" == k
    then some (record {
      public_key = "k1";
      allowed_ips = some "10.8.1.2/32";
      preshared_key = none;
      persistent_keepalive = 25;
    })
    else none

abbrev peers : List PeerStats
peers = record { public_key = "k1"; last_handshake = 5; transfer_rx = 70; transfer_tx = 80 } ∷ []

abbrev stats : String → Held → Option (List PeerStats)
stats n s = some peers

-- The device is blocked, and the entry says so.
blocked :
    (run_limits_check cluster stats true (server ∷ []) (device ∷ []) [] holding).1
    ≡ record { resource_id = "d1"; traffic_bytes = 150; server_id = "n1"; node_accepted = true }
      ∷ []
unfolding run_limits_check
blocked = refl

abbrev enforcing : Settings
enforcing = record { reconciliation_read_only = false; reconciliation_remove_orphans = true }

abbrev one_added : ReconciliationResult
one_added = record no_result { peers_added = 1; peers_added_pubkeys = "k1" ∷ [] }

abbrev before : World Held
before = record {
  devices = device ∷ [];
  audits = [];
  nodes = (check_server cluster stats server (device ∷ []) holding).1;
}

after : World Held
after = (reconcile_node cluster enforcing 9 false "n1" [] before).1

ran : reconcile_node cluster enforcing 9 false "n1" [] before ≡ (result one_added, after)
unfolding after reconcile_node compute_diff apply_diff check_server is_truthy strip
ran = refl

silent :
    (j : String)
    → none ≡ address_at ((check_server cluster stats server (device ∷ []) holding).1 "n1" j)
unfolding check_server
silent j = ground arith

blocked_peer_returns_example :
    ((check_server cluster stats server (device ∷ []) holding).1 "n1" "k1" ≡ none)
    × (address_at (after.nodes "n1" "k1") ≡ some "10.8.1.2/32")
unfolding cluster-IsExact excess_of traffic_by_key db_peers_of ids_of normalized
    is_valid_server_allowed_ips
blocked_peer_returns_example =
    blocked_peer_returns cluster cluster-IsExact (λ n j s. refl) stats server (device ∷ []) holding
      100 peers "k1" "10.8.1.2/32" none enforcing 9 [] [] one_added after refl refl refl refl refl
      refl refl refl silent (λ j. refl) ran refl
