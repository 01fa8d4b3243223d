-- ===== src/Migrate/Peer.antt =====
-- `migrate_peer`. The adapter is that of the reconciliation.
use vpn_suite.Prelude.{
  String, Bool, true, false, not, ◌||◌, none, some, ◌==◌, string_eq, if◌then◌else◌, is_some,
  is_truthy, contains_text, strip, or_text, Result, ok, err,
}
use vpn_suite.Devices.Rows.{Device}
use vpn_suite.Reconcile.Peer.{PeerConfigLike}
use vpn_suite.Reconcile.Apply.{returned, raised}
use vpn_suite.Reconcile.Nodes.{Adapter}

-- `add_failed` carries the text of the exception, and whether the peer was put back.
pub data MigrateError : Type 0 where
  is_revoked no_allowed_ips : MigrateError
  add_failed : String → Bool → MigrateError

-- `(device.allowed_ips or "").strip()`
unfoldable pub address_of : Device → String
unfolding strip
address_of d = strip (or_text d.allowed_ips "")

-- `not allowed or "0.0.0.0/0" in allowed`
unfoldable pub is_unsendable : String → Bool
unfolding is_truthy contains_text
is_unsendable allowed = not (is_truthy allowed) || contains_text "0.0.0.0/0" allowed

-- `PeerConfigLike(public_key=..., allowed_ips=...)`, with its defaults.
unfoldable pub moved_config : Device → PeerConfigLike
unfolding address_of
moved_config d = record {
  public_key = d.public_key;
  allowed_ips = some (address_of d);
  preshared_key = none;
  persistent_keepalive = 25;
}

module _ (a : Adapter) where
  -- The removal, whose exception is passed over, the addition, and the way back where that raises.
  unfoldable pub move_peer : Device → String → a.State → Result MigrateError Device × a.State
  unfolding moved_config
  move_peer d target s =
      let config = moved_config d in
      let (removed, s') = a.remove_peer d.server_id d.public_key s in
      let (added, s'') = a.add_peer target config s' in
      elim added [
        | returned ↦ (ok (record d { server_id = target }), s'')
        | raised e ↦
            let (restored, s''') = a.add_peer d.server_id config s'' in
            (err (add_failed e (elim restored [ returned ↦ true | raised e' ↦ false ])), s''')
      ]

  -- The device as it is afterwards, or what is raised.
  unfoldable pub migrate_peer : Device → String → a.State → Result MigrateError Device × a.State
  unfolding move_peer is_unsendable address_of
  migrate_peer d target s =
      let moved = move_peer d target s in
      if is_some d.revoked_at
      then (err is_revoked, s)
      else if d.server_id == target
      then (ok d, s)
      else if is_unsendable (address_of d)
      then (err no_allowed_ips, s)
      else moved
