-- ===== src/Migrate/Moves.antt =====
-- Where the peer of a device is after a migration.
use vpn_suite.Prelude.{
  Bool-cases, subst, ap, eq_iff, false, String, Bool, true, not, ◌&&◌, Option, none, some, ◌≡◌,
  arith, ◌==◌, string_eq, if◌then◌else◌, is_some, ok, sym, ◌∙◌, inl, inr,
}
use vpn_suite.Devices.Rows.{Device}
use vpn_suite.Reconcile.Peer.{PeerConfigLike}
use vpn_suite.Reconcile.Apply.{returned}
use vpn_suite.Reconcile.Nodes.Settles.{Outcome-cases}
use vpn_suite.Reconcile.Nodes.{Adapter}
use vpn_suite.Migrate.Peer.{address_of, is_unsendable, moved_config, move_peer, migrate_peer}

abbrev psk_at : Option PeerConfigLike → Option String
psk_at none = none
psk_at (some p) = p.preshared_key

-- A peer as `wg set` leaves it: without a preshared key in the call, that of the node stays.
abbrev pub placed : PeerConfigLike → Option PeerConfigLike → PeerConfigLike
placed p old = record p {
  preshared_key = elim p.preshared_key [ none ↦ psk_at old | some k ↦ some k ];
}

-- What the nodes hold: a call that returns has done what it says on its node; an addition that
-- raises may have been done; and no call touches another node or another key.
pub record IsExact (a : Adapter) : Type 1 where
  pub config_at : a.State → String → String → Option PeerConfigLike
  pub add_peer_sets :
      (n : String) (p : PeerConfigLike) (s : a.State)
      → (a.add_peer n p s).0 ≡ returned
      → (m k : String)
      → config_at (a.add_peer n p s).1 m k ≡ (
          if n == m && p.public_key == k
          then some (placed p (config_at s m k))
          else config_at s m k)
  pub add_peer_others :
      (n : String) (p : PeerConfigLike) (s : a.State) (m k : String)
      → (n == m && p.public_key == k) ≡ false
      → config_at (a.add_peer n p s).1 m k ≡ config_at s m k
  pub remove_peer_drops :
      (n j : String) (s : a.State)
      → (a.remove_peer n j s).0 ≡ returned
      → (m k : String)
      → config_at (a.remove_peer n j s).1 m k ≡ (if n == m && j == k then none else config_at s m k)

-- A device that may be moved to a node.
abbrev pub is_movable : Device → String → Bool
is_movable d target =
    not (is_some d.revoked_at) && not (d.server_id == target) && not (is_unsendable (address_of d))

module _ (a : Adapter) (x : IsExact a) where
  migrate_peer-moves :
      (d : Device) (target : String) (s : a.State)
      → is_movable d target ≡ true
      → migrate_peer a d target s ≡ move_peer a d target s
  unfolding migrate_peer
  migrate_peer-moves d target s movable = ground arith

  -- A migration that returns, of a device that is not revoked and has an address that may be sent,
  -- to a node that is not its own, has made the device one of the target. Where the removal did not
  -- raise and the adapter does what it says, the target then holds the device's key with its address
  -- and without a preshared key, whatever the device's own is, unless the target had one for the key
  -- before; the source does not hold the key, and everything else is as it was.
  pub migrate_peer-config_at :
      (d d' : Device) (target : String) (s s' : a.State) (node k : String)
      → is_movable d target ≡ true
      → (a.remove_peer d.server_id d.public_key s).0 ≡ returned
      → migrate_peer a d target s ≡ (ok d', s')
      → (d' ≡ record d { server_id = target })
        × (x.config_at s' node k ≡ (
            if target == node && d.public_key == k
            then some (
                placed
                  (record {
                    public_key = d.public_key;
                    allowed_ips = some (address_of d);
                    preshared_key = none;
                    persistent_keepalive = 25;
                  })
                  (x.config_at s node k))
            else if d.server_id == node && d.public_key == k
            then none
            else x.config_at s node k))
  unfolding move_peer moved_config
  migrate_peer-config_at d d' target s s' node k movable removed ran =
      let moved : move_peer a d target s ≡ (ok d', s') =
        sym (migrate_peer-moves d target s movable) ∙ ran in
      let config = moved_config d in
      let between = (a.remove_peer d.server_id d.public_key s).1 in
      elim (Outcome-cases (a.add_peer target config between).0) [
        | inr (e, raises) ↦ absurd (ground arith)
        | inl returns ↦
            let sets = x.add_peer_sets target config between returns node k in
            let drops = x.remove_peer_drops d.server_id d.public_key s removed node k in
            elim (Bool-cases (target == node)) [
              | inr elsewhere ↦ ground (arith, sets, drops)
              | inl here ↦
                  let apart : (d.server_id == node) ≡ false =
                    subst (λ (n : String). (d.server_id == n) ≡ false) ((eq_iff target node).0 here)
                      (ground arith) in
                  let same : x.config_at between node k ≡ x.config_at s node k =
                    ground (arith, drops, apart) in
                  let kept : placed config (x.config_at between node k)
                      ≡ placed config (x.config_at s node k) =
                    ap (λ (q : Option PeerConfigLike). placed config q) same in
                  ground (arith, sets, kept, same)
            ]
      ]
