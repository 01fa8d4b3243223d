-- ===== src/Reconcile/Nodes/Tests.antt =====
-- A node with a revoked peer, and rounds over it.
use vpn_suite.Prelude.{
  ◌≤◌, String, true, false, Option, none, some, List, [], ◌∷◌, ◌≡◌, refl, arith, ◌==◌, string_eq,
  if◌then◌else◌, is_truthy, strip, map,
}
use vpn_suite.Reconcile.Peer.{peer_allowed_ips}
use vpn_suite.Reconcile.Diff.{compute_diff, db_map_from, wg_map_from, to_remove, configs_where}
use vpn_suite.Reconcile.Diff.Exact.{reported}
use vpn_suite.Reconcile.Apply.{
  IsFaithful, returned, no_result, ReconciliationResult, Settings, apply_diff, write_diff,
  remove_orphans, for_each, remove_one,
}
use vpn_suite.Reconcile.Nodes.{
  Adapter, at_node, ids_of, is_wanted, db_peers_of, device_ids_from, known_ids, mark_all_applied,
  finish_round, round_with, result, World, reconcile_node, reconcile_all_nodes, loop_turn,
}
use vpn_suite.Reconcile.Nodes.Settles.{revoked_key_gone}
use vpn_suite.Reconcile.Nodes.Loop.{loop_backs_off, reconcile_all_nodes-names}

-- A node that lists the peer `k1` if it holds it.
abbrev adapter : Adapter
adapter = record {
  State = String → Option String;
  add_peer = λ n p s. (returned, λ k. if p.public_key == k then p.allowed_ips else s k);
  remove_peer = λ n j s. (returned, λ k. if j == k then none else s k);
  list_peers = λ n s. (
    returned,
    elim (s "k1") [
      | none ↦ []
      | some v ↦ record { public_key = some "k1"; allowed_ips = some v; allowed_ip = none } ∷ []
    ],
  );
  ensure_reply_routes = λ n s. (returned, s);
  discover_nodes = λ s. (returned, record { node_id = "n1"; container_name = none } ∷ []);
}

adapter-IsFaithful : (node : String) → IsFaithful (at_node adapter node)
adapter-IsFaithful node = record {
  peer_at = λ s k. s k;
  add_peer_sets = λ p s h k. refl;
  remove_peer_drops = λ j s h k. refl;
}

-- The device of the peer is revoked.
abbrev world : World (String → Option String)
world = record {
  devices =
      record {
        id = "d1";
        subscription_id = "sub1";
        issued_at = 0;
        server_id = "n1";
        public_key = "k1";
        allowed_ips = some "10.8.1.2/32";
        preshared_key = none;
        revoked_at = some 5;
        suspended_at = none;
        expires_at = none;
        apply_status = some "APPLIED";
        last_applied_at = none;
        last_error = none;
        unstable_reason = none;
      }
      ∷ [];
  audits = [];
  nodes = λ k. if "k1" == k then some "10.8.1.2/32" else none;
}

abbrev enforcing : Settings
enforcing = record { reconciliation_read_only = false; reconciliation_remove_orphans = true }

abbrev one_removed : ReconciliationResult
one_removed = record no_result { peers_removed = 1 }

abbrev after : World (String → Option String)
after = record {
  devices = world.devices;
  audits = ("n1", one_removed) ∷ [];
  nodes = λ k. if "k1" == k then none else world.nodes k;
}

ran : reconcile_node adapter enforcing 9 false "n1" [] world ≡ (result one_removed, after)
unfolding reconcile_node round_with finish_round ids_of db_peers_of is_wanted device_ids_from
    known_ids mark_all_applied compute_diff db_map_from wg_map_from to_remove configs_where
    apply_diff write_diff remove_orphans for_each remove_one peer_allowed_ips strip is_truthy
ran = refl

listed :
    (k : String)
    → reported (adapter.list_peers "n1" world.nodes).1 k
      ≡ (if "k1" == k then some "10.8.1.2/32" else none)
unfolding peer_allowed_ips strip is_truthy
listed k = ground arith

revoked_key_gone_example : after.nodes "k1" ≡ none
unfolding adapter-IsFaithful is_wanted ids_of is_truthy
revoked_key_gone_example =
    revoked_key_gone adapter adapter-IsFaithful enforcing 9 refl refl "n1" [] world listed
      (λ k. refl) one_removed after ran refl "k1" refl

loop_waits :
    (60 ≤ (loop_turn 60 false 2).1)
    × ((loop_turn 60 false 2).1 ≤ 3600)
    × ((loop_turn 60 false 2).1 ≤ (loop_turn 60 false (loop_turn 60 false 2).0).1)
    × (loop_turn 60 true 2 ≡ (0, 60))
loop_waits = loop_backs_off 60 2 (omega arith)

one_node_named :
    (results : List (String × ReconciliationResult)) × ((reconcile_all_nodes adapter enforcing 9
        false
        (λ e. e)
        world).0
      ≡ some results)
    × (map (λ (e : String × ReconciliationResult). e.0) results ≡ "n1" ∷ [])
one_node_named = reconcile_all_nodes-names adapter enforcing 9 (λ e. e) world refl
