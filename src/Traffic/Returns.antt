-- ===== src/Traffic/Returns.antt =====
-- A device blocked for its traffic is back after the next round of the reconciliation.
use vpn_suite.Prelude.{
  ℕ, String, Bool, true, false, ◌&&◌, Option, none, some, List, [], ◌∷◌, ◌==◌, string_eq, is_some,
  any, Dict, ◌≡◌, ap, ◌∙◌, arith, ==_refl, Option-cases, inl, inr,
}
use vpn_suite.Devices.Rows.{Device}
use vpn_suite.Reconcile.Peer.{PeerConfigLike, is_valid_server_allowed_ips}
use vpn_suite.Reconcile.Diff.Exact.{wanted, reported}
use vpn_suite.Reconcile.Apply.{returned, IsFaithful, Settings, ReconciliationResult}
use vpn_suite.Reconcile.Apply.Converges.{settled}
use vpn_suite.Reconcile.Nodes.{Adapter, at_node, World, reconcile_node, result, db_peers_of, ids_of}
use vpn_suite.Reconcile.Nodes.Settles.{reconcile_node-settles}
use vpn_suite.Migrate.Moves.{IsExact}
use vpn_suite.Migrate.Candidates.{PeerStats}
use vpn_suite.Traffic.Check.{MeteredServer, traffic_by_key, excess_of, block_each, check_server}

abbrev pub address_at : Option PeerConfigLike → Option String
address_at none = none
address_at (some p) = p.allowed_ips

-- The engine's view of a node whose calls are exact.
IsExact-IsFaithful : (a : Adapter) → IsExact a → (n : String) → IsFaithful (at_node a n)
IsExact-IsFaithful a x n = record {
  peer_at = λ s k. address_at (x.config_at s n k);
  add_peer_sets = λ p s h k. ground (arith, x.add_peer_sets n p s h n k, ==_refl n);
  remove_peer_drops = λ j s h k. ground (arith, x.remove_peer_drops n j s h n k, ==_refl n);
}

module _ (a : Adapter) (x : IsExact a)
    (removes : (n j : String) (s : a.State) → (a.remove_peer n j s).0 ≡ returned) where
  block_each-stays :
      (n : String) (limit : ℕ) (traffic : Dict String ℕ) (ds : List Device) (s : a.State)
      (k : String)
      → x.config_at s n k ≡ none
      → x.config_at (block_each a n limit traffic ds s).1 n k ≡ none
  unfolding block_each
  block_each-stays n limit traffic [] s k h = h
  block_each-stays n limit traffic (d ∷ ds) s k h =
      let s' = (a.remove_peer n d.public_key s).1 in
      elim (Option-cases (excess_of n limit traffic d)) [
        | inl under ↦ ground (arith, block_each-stays n limit traffic ds s k h)
        | inr (tb, over) ↦
            let gone : x.config_at s' n k ≡ none =
              ground (arith, x.remove_peer_drops n d.public_key s (removes n d.public_key s) n k) in
            ground (arith, block_each-stays n limit traffic ds s' k gone)
      ]

  abbrev pub is_over : String → ℕ → Dict String ℕ → String → Device → Bool
  is_over n limit traffic k d = is_some (excess_of n limit traffic d) && d.public_key == k

  block_each-gone :
      (n : String) (limit : ℕ) (traffic : Dict String ℕ) (ds : List Device) (s : a.State)
      (k : String)
      → any (is_over n limit traffic k) ds ≡ true
      → x.config_at (block_each a n limit traffic ds s).1 n k ≡ none
  unfolding block_each
  block_each-gone n limit traffic [] s k h = absurd (ground arith)
  block_each-gone n limit traffic (d ∷ ds) s k h =
      let s' = (a.remove_peer n d.public_key s).1 in
      elim (Option-cases (excess_of n limit traffic d)) [
        | inl under ↦ ground (arith, block_each-gone n limit traffic ds s k)
        | inr (tb, over) ↦ ground (
          arith,
          ==_refl n,
          x.remove_peer_drops n d.public_key s (removes n d.public_key s) n k,
          block_each-stays n limit traffic ds s' k,
          block_each-gone n limit traffic ds s' k,
        )
      ]

  module _ (list_stats : String → a.State → Option (List PeerStats)) (server : MeteredServer)
      (devices : List Device) (s : a.State) where
    abbrev pub checked : a.State
    checked = (check_server a list_stats server devices s).1

    -- A check of a server whose listing shows a key's device over the limit removes the peer.
    check_server-gone :
        (limit : ℕ) (peers : List PeerStats) (k : String)
        → server.limit_bytes ≡ some limit
        → server.is_active ≡ true
        → list_stats server.id s ≡ some peers
        → any (is_over server.id limit (traffic_by_key [] peers) k) devices ≡ true
        → x.config_at checked server.id k ≡ none
    unfolding check_server
    check_server-gone limit peers k set active listing over =
        ground (arith, block_each-gone server.id limit (traffic_by_key [] peers) devices s k over)

    -- A check of an active server whose listing shows the device of a key over the server's limit
    -- removes the key's peer from the node; but where the database still has a valid address for
    -- the key, the next round of the reconciliation of that node that returns a result without
    -- errors gives the node the peer back. The adapter does what it says, its removals do not raise,
    -- its listing tells what the node holds, and its call for reply routes changes no peer; the
    -- round is outside read-only mode and removes orphans.
    pub blocked_peer_returns :
        (limit : ℕ) (peers : List PeerStats) (k addr : String) (psk : Option String)
        (settings : Settings) (now : ℕ) (server_ids : List String)
        (audits : List (String × ReconciliationResult)) (res : ReconciliationResult)
        (w' : World a.State)
        → server.limit_bytes ≡ some limit
        → server.is_active ≡ true
        → list_stats server.id s ≡ some peers
        → any (is_over server.id limit (traffic_by_key [] peers) k) devices ≡ true
        → wanted (db_peers_of (ids_of server.id server_ids) devices) k ≡ some (addr, psk)
        → is_valid_server_allowed_ips addr ≡ true
        → settings.reconciliation_read_only ≡ false
        → settings.reconciliation_remove_orphans ≡ true
        → ((j : String)
            → reported (a.list_peers server.id checked).1 j
              ≡ address_at (x.config_at checked server.id j))
        → ((j : String)
            → address_at (x.config_at (a.ensure_reply_routes server.id checked).1 server.id j)
              ≡ address_at (x.config_at checked server.id j))
        → reconcile_node a settings now false server.id server_ids
            (record { devices = devices; audits = audits; nodes = checked })
          ≡ (result res, w')
        → res.errors ≡ []
        → (x.config_at checked server.id k ≡ none)
          × (address_at (x.config_at w'.nodes server.id k) ≡ some addr)
    unfolding IsExact-IsFaithful
    blocked_peer_returns limit peers k addr psk settings now server_ids audits res w' set active
          listing over row valid live orphans listed routed ran clean =
        let gone = check_server-gone limit peers k set active listing over in
        let w : World a.State = record { devices = devices; audits = audits; nodes = checked } in
        let settles : address_at (x.config_at w'.nodes server.id k)
            ≡ settled (wanted (db_peers_of (ids_of server.id server_ids) devices) k)
                (address_at (x.config_at checked server.id k)) =
          reconcile_node-settles a (IsExact-IsFaithful a x) settings now live orphans server.id
            server_ids w listed routed res w' ran clean k in
        (
          gone,
          settles
              ∙ ap (λ o. settled o (address_at (x.config_at checked server.id k))) row
              ∙ ap (λ o. settled (some (addr, psk)) (address_at o)) gone
              ∙ ground arith,
        )
