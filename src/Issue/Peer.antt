-- ===== src/Issue/Peer.antt =====
-- The calls that put a device's peer on its node: those of `issue_device`, and
-- `_ensure_device_peer_on_node` of backend/app/services/admin_issue_service.py.
use vpn_suite.Prelude.{
  String, Bool, Option, some, List, ◌==◌, string_eq, if◌then◌else◌, strip, or_text, any,
}
use vpn_suite.Reconcile.Peer.{PeerConfigLike, WgPeer}
use vpn_suite.Reconcile.Apply.{Outcome, returned, raised}
use vpn_suite.Reconcile.Nodes.{Adapter}

-- `any((p.get("public_key") or "").strip() == key for p in peers)`
unfoldable pub lists_key : String → List WgPeer → Bool
unfolding strip
lists_key key peers = any (λ p. strip (or_text p.public_key "") == key) peers

-- The text of the exception where the peer is not listed.
abbrev pub not_listed : String
not_listed = "Node peer creation verification failed (peer missing after add)"

abbrev pub issued_config : String → String → Option String → PeerConfigLike
issued_config key allowed psk = record {
  public_key = key;
  allowed_ips = some allowed;
  preshared_key = psk;
  persistent_keepalive = 15;
}

module _ (a : Adapter) where
  unfoldable pub ensure_device_peer_on_node :
      String → String → String → Option String → a.State → Outcome × a.State
  unfolding lists_key strip
  ensure_device_peer_on_node node key allowed psk s =
      let (listed, peers) = a.list_peers node s in
      let (added, s') = a.add_peer node (issued_config (strip key) (strip allowed) psk) s in
      elim listed [
        | raised e ↦ (raised e, s)
        | returned ↦
            if lists_key (strip key) peers
            then a.ensure_reply_routes node s
            else elim added [ raised e ↦ (raised e, s') | returned ↦ a.ensure_reply_routes node s' ]
      ]

  -- The body of the `try`: the peer is added, looked for among those listed, and ensured.
  unfoldable pub create_peer : String → String → String → String → a.State → Outcome × a.State
  unfolding lists_key ensure_device_peer_on_node
  create_peer node key allowed psk s =
      let (added, s') = a.add_peer node (issued_config key allowed (some psk)) s in
      let (listed, peers) = a.list_peers node s' in
      elim added [
        | raised e ↦ (raised e, s')
        | returned ↦ elim listed [
          | raised e ↦ (raised e, s')
          | returned ↦
              if lists_key key peers
              then ensure_device_peer_on_node node key allowed (some psk) s'
              else (raised not_listed, s')
        ]
      ]

  -- A peer is added, and looked for among those listed; `missing` is the exception's text.
  unfoldable pub add_verified : String → PeerConfigLike → String → a.State → Outcome × a.State
  unfolding lists_key
  add_verified node config missing s =
      let (added, s') = a.add_peer node config s in
      let (listed, peers) = a.list_peers node s' in
      elim added [
        | raised e ↦ (raised e, s')
        | returned ↦ elim listed [
          | raised e ↦ (raised e, s')
          | returned ↦
              if lists_key config.public_key peers then (returned, s') else (raised missing, s')
        ]
      ]

  -- A peer is ensured, and looked for among those listed then.
  unfoldable pub ensure_verified : String → String → String → String → a.State → Outcome × a.State
  unfolding ensure_device_peer_on_node lists_key
  ensure_verified node key allowed psk s =
      let (ensured, s') = ensure_device_peer_on_node node key allowed (some psk) s in
      let (listed, peers) = a.list_peers node s' in
      elim ensured [
        | raised e ↦ (raised e, s')
        | returned ↦ elim listed [
          | raised e ↦ (raised e, s')
          | returned ↦ if lists_key key peers then (returned, s') else (raised not_listed, s')
        ]
      ]
