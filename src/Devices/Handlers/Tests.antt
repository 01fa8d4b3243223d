-- ===== src/Devices/Handlers/Tests.antt =====
-- Requests for one device of a node that holds its peer.
use vpn_suite.Prelude.{
  inl, ℕ, String, true, false, Option, none, some, [], ◌∷◌, ◌==◌, string_eq, ◌&&◌, if◌then◌else◌,
  ok, ◌≡◌, refl, arith, strip, is_truthy,
}
use vpn_suite.Devices.Rows.{Device}
use vpn_suite.Reconcile.Peer.{PeerConfigLike, peer_allowed_ips}
use vpn_suite.Reconcile.Diff.Exact.{reported}
use vpn_suite.Reconcile.Diff.{compute_diff, db_map_from, wg_map_from, to_remove, configs_where}
use vpn_suite.Reconcile.Apply.{
  IsFaithful, Settings, ReconciliationResult, returned, no_result, apply_diff, write_diff,
  remove_orphans, for_each, remove_one,
}
use vpn_suite.Reconcile.Nodes.{
  Adapter, at_node, World, reconcile_node, result, ids_of, db_peers_of, finish_round, round_with,
  is_wanted, device_ids_from, known_ids, mark_all_applied,
}
use vpn_suite.Migrate.Moves.{placed, IsExact}
use vpn_suite.Devices.Handlers.{
  HandlerSettings, done, suspend_device, reset_device, sync_device_peer, synced_config,
  update_device_fields,
}
use vpn_suite.Devices.Handlers.Settles.{suspended_key_gone}
use vpn_suite.Devices.Handlers.Placed.{
  applied_again, IsReset, reset_device-IsReset, sync_device_peer-config_at,
}

abbrev Held : Type 0
Held = String → String → Option PeerConfigLike

-- Nodes that list the peer `k1`.
abbrev nodes : Adapter
nodes = record {
  State = Held;
  add_peer = λ n p s.
      (returned, λ m k. if n == m && p.public_key == k then some (placed p (s m k)) else s m k);
  remove_peer = λ n j s. (returned, λ m k. if n == m && j == k then none else s m k);
  list_peers = λ n s. (
    returned,
    elim (s n "k1") [
      | none ↦ []
      | some p ↦
          record { public_key = some "k1"; allowed_ips = p.allowed_ips; allowed_ip = none } ∷ []
    ],
  );
  ensure_reply_routes = λ n s. (returned, s);
  discover_nodes = λ s. (returned, []);
}

nodes-IsExact : IsExact nodes
nodes-IsExact = record {
  config_at = λ s. s;
  add_peer_sets = λ n p s h m k. refl;
  add_peer_others = λ n p s m k h. ground arith;
  remove_peer_drops = λ n j s h m k. refl;
}

abbrev handlers : HandlerSettings
handlers = record {
  environment = "staging";
  node_mode = "real";
  node_discovery = "docker";
  revoke_confirm_token = "revoke";
  block_confirm_token = "block";
}

abbrev device : Option ℕ → Option ℕ → Device
device revoked_at suspended_at = record {
  id = "d1";
  subscription_id = "sub1";
  issued_at = 0;
  server_id = "n1";
  public_key = "k1";
  allowed_ips = some "10.8.1.2/32";
  preshared_key = some "psk";
  revoked_at = revoked_at;
  suspended_at = suspended_at;
  expires_at = none;
  apply_status = some "APPLIED";
  last_applied_at = none;
  last_error = none;
  unstable_reason = none;
}

abbrev world : Option ℕ → World Held
world suspended_at = record {
  devices = device none suspended_at ∷ [];
  audits = [];
  nodes = λ n k.
      if n == "n1" && k == "k1"
      then some (synced_config "psk" (device none suspended_at))
      else none;
}

reset_device-IsReset_example :
    IsReset nodes nodes-IsExact handlers 50 false
      (device none none)
      (world none)
      (reset_device nodes handlers 50 "d1" false (world none)).0
      (reset_device nodes handlers 50 "d1" false (world none)).1
reset_device-IsReset_example =
    reset_device-IsReset nodes nodes-IsExact handlers 50 "d1" false (device none none) (world none)
      refl refl refl

abbrev synced : World Held
synced = (sync_device_peer nodes handlers 50 (λ s. none) "d1" (world (some 5))).1

sync_runs : sync_device_peer nodes handlers 50 (λ s. none) "d1" (world (some 5)) ≡ (ok done, synced)
unfolding sync_device_peer
sync_runs = refl

-- The device is suspended.
sync_device_peer-config_at_example :
    ((sync_device_peer nodes handlers 50 (λ s. none) "d1" (world (some 5))).0 ≡ ok done)
    × (nodes-IsExact.config_at synced.nodes "n1" "k1"
        ≡ some (applied_again "psk" (device none (some 5))))
    × (synced.devices ≡ (world (some 5)).devices)
sync_device_peer-config_at_example =
    sync_device_peer-config_at nodes nodes-IsExact handlers 50 (λ s. none) "d1" "psk"
      (device none (some 5)) (world (some 5)) refl refl refl refl refl refl (inl refl) refl

-- A node whose state is the address that it has for each key.
abbrev plain : Adapter
plain = record {
  State = String → Option String;
  add_peer = λ n p s. (returned, λ k. if p.public_key == k then p.allowed_ips else s k);
  remove_peer = λ n j s. (returned, λ k. if j == k then none else s k);
  list_peers = λ n s. (
    returned,
    elim (s "k1") [
      | none ↦ []
      | some v ↦ record { public_key = some "k1"; allowed_ips = some v; allowed_ip = none } ∷ []
    ],
  );
  ensure_reply_routes = λ n s. (returned, s);
  discover_nodes = λ s. (returned, []);
}

plain-IsFaithful : (node : String) → IsFaithful (at_node plain node)
plain-IsFaithful node = record {
  peer_at = λ s k. s k;
  add_peer_sets = λ p s h k. refl;
  remove_peer_drops = λ j s h k. refl;
}

abbrev before : World (String → Option String)
before = record {
  devices = device none none ∷ [];
  audits = [];
  nodes = λ k. if "k1" == k then some "10.8.1.2/32" else none;
}

abbrev between : World (String → Option String)
between = record before { devices = device none (some 50) ∷ [] }

suspended_now : suspend_device handlers 50 "d1" before ≡ (ok done, between)
unfolding suspend_device
suspended_now = refl

abbrev enforcing : Settings
enforcing = record { reconciliation_read_only = false; reconciliation_remove_orphans = true }

abbrev one_removed : ReconciliationResult
one_removed = record no_result { peers_removed = 1 }

abbrev after : World (String → Option String)
after = record {
  devices = between.devices;
  audits = ("n1", one_removed) ∷ [];
  nodes = λ k. if "k1" == k then none else before.nodes k;
}

ran : reconcile_node plain enforcing 60 false "n1" [] between ≡ (result one_removed, after)
unfolding reconcile_node round_with finish_round ids_of db_peers_of is_wanted device_ids_from
    known_ids mark_all_applied compute_diff db_map_from wg_map_from to_remove configs_where
    apply_diff write_diff remove_orphans for_each remove_one peer_allowed_ips strip is_truthy
ran = refl

listed :
    (k : String)
    → reported (plain.list_peers "n1" before.nodes).1 k
      ≡ (if "k1" == k then some "10.8.1.2/32" else none)
unfolding peer_allowed_ips strip is_truthy
listed k = ground arith

suspended_key_gone_example : after.nodes "k1" ≡ none
unfolding plain-IsFaithful ids_of is_truthy
suspended_key_gone_example =
    suspended_key_gone plain plain-IsFaithful enforcing handlers 50 60 refl refl "n1" [] before
      listed (λ k. refl) "d1" (device none none) between after one_removed suspended_now refl refl
      refl ran refl

-- A revoked device is taken back by a PATCH, though another has got its address since.
abbrev other : Device
other = record (device none none) { id = "d2"; public_key = "k2" }

address_twice :
    (update_device_fields handlers 50 "d1" []
      (record {
        server_id = none;
        allowed_ips = none;
        suspended_at = none;
        expires_at = none;
        revoked_at = some none;
      })
      (record before { devices = device (some 40) none ∷ other ∷ [] })).1.devices
    ≡ device none none ∷ other ∷ []
unfolding update_device_fields
address_twice = refl
