-- ===== src/Issue/Device.antt =====
-- `issue_device`. The keys, the identifier and the preshared key that it generates are arguments, and
-- so are Redis, the parsers, the scores of the balancer and the adapter.
use vpn_suite.Prelude.{
  String, Bool, true, false, not, ◌&&◌, none, some, [], ◌∷◌, ◌++◌, ◌==◌, string_eq, nat_eq,
  if◌then◌else◌, Result, ok, err, ◌>>=◌, text_take,
}
use vpn_suite.Payments.Records.{first, update_where}
use vpn_suite.Devices.Rows.{Device, is_row}
use vpn_suite.Config.Text.Wrappers.{build_all_configs}
use vpn_suite.Reconcile.Apply.{returned, raised}
use vpn_suite.Reconcile.Nodes.{mark_applied}
use vpn_suite.Issue.Rows.{Tables, Runtime, IssueSettings}
use vpn_suite.Issue.Peer.{create_peer}
use vpn_suite.Issue.Checks.{
  IssueError, no_runtime, peer_failed, config_refused, IssueRequest, Generated, IssueResult,
  check_subscription, choose_server, active_server,
}
use vpn_suite.Issue.Prepare.{Prepared, Outside, prepare_with}

-- A peer is put on the node by the request itself.
abbrev pub is_direct : IssueSettings → Bool
is_direct settings = settings.node_mode == "real" && not (settings.node_discovery == "agent")

abbrev pub new_device : IssueSettings → IssueRequest → Generated → Prepared → Device
new_device settings r g p = record {
  id = g.device_id;
  subscription_id = r.subscription_id;
  issued_at = g.now;
  server_id = p.server.id;
  public_key = g.public_key;
  allowed_ips = some p.allowed_ips;
  preshared_key = some p.preshared_key;
  revoked_at = none;
  suspended_at = none;
  expires_at = none;
  apply_status = some (if is_direct settings then "CREATED" else "PENDING_APPLY");
  last_applied_at = none;
  last_error = none;
  unstable_reason = none;
}

-- `update(Device).where(Device.id == id)`
abbrev pub update_device : {S : Type 0} → String → (Device → Device) → Tables S → Tables S
update_device id change t = record t { devices = update_where (is_row id) change t.devices }

abbrev pub with_apply_status : String → Device → Device
with_apply_status status d = record d { apply_status = some status }

abbrev pub fall_back : String → Device → Device
fall_back error d = record d {
  apply_status = some "PENDING_APPLY";
  last_error = some (text_take 500 error);
}

module _ (rt : Runtime) where
  open rt use {adapter, discovery, obfuscation_of}

  -- What is asked of the runtime before, if there is one.
  unfoldable pub prepare :
      Bool
      → Outside
      → IssueSettings
      → IssueRequest
      → Generated
      → Tables adapter.State
      → Result IssueError Prepared
  unfolding check_subscription choose_server active_server prepare_with
  prepare has_runtime o settings r g t =
      check_subscription g.now r t.users t.subscriptions t.devices >>= λ sub.
      choose_server o.scores r >>= λ server_id. active_server server_id t.servers >>= λ server.
      prepare_with o settings g (if has_runtime then some (discovery t.nodes) else none)
        (if has_runtime then obfuscation_of server_id t.nodes else none) server
        (first (λ profile. profile.server_id == server_id) t.profiles) t.devices

  -- The rows that are added, and the server's.
  abbrev pub add_rows :
      IssueSettings
      → IssueRequest
      → Generated
      → Prepared
      → Tables adapter.State
      → Tables adapter.State
  add_rows settings r g p t = record t {
    servers = update_where (λ s. s.id == p.server.id) (λ s. p.server) t.servers;
    devices = t.devices ++ (new_device settings r g p ∷ []);
    issues = t.issues ++ (g.device_id ∷ []);
  }

  -- The peer, where the request puts it on the node. A device whose peer fails is kept for later, or
  -- the request raises: the deletion of its row is a coroutine that is not awaited.
  unfoldable pub apply_peer :
      Bool
      → Outside
      → IssueSettings
      → Generated
      → Prepared
      → Tables adapter.State
      → Result IssueError Bool × Tables adapter.State
  unfolding create_peer
  apply_peer has_runtime o settings g p t =
      let (created, s') =
        create_peer adapter p.server.id g.public_key p.allowed_ips p.preshared_key t.nodes in
      let applying = record (update_device g.device_id (with_apply_status "APPLYING") t) {
        nodes = s';
      } in
      if not (is_direct settings)
      then (ok false, t)
      else if not has_runtime
      then (err no_runtime, t)
      else elim created [
        | returned ↦ (ok true, update_device g.device_id (mark_applied g.applied_at) applying)
        | raised e ↦
            if settings.issue_fallback_on_peer_failure
            then (ok false, update_device g.device_id (fall_back (o.redact e)) applying)
            else (err (peer_failed (o.redact e)), applying)
      ]

  -- The configurations come last.
  unfoldable pub emit_configs :
      Outside
      → Generated
      → Prepared
      → Result IssueError Bool × Tables adapter.State
      → Result IssueError IssueResult × Tables adapter.State
  unfolding build_all_configs
  emit_configs o g p (err e, t) = (err e, t)
  emit_configs o g p (ok peer_created, t) = elim (build_all_configs o.parsers p.config) [
    | err faults ↦ (err (config_refused faults), t)
    | ok configs ↦ (
      ok (record {
        device_id = g.device_id;
        private_key = g.private_key;
        configs = configs;
        peer_created = peer_created;
      }),
      t,
    )
  ]

  -- The tables as the session has them; where a check before the device's row raises, its writes to
  -- the server's row, which the caller rolls back, are left out.
  unfoldable pub issue_device :
      Bool
      → Outside
      → IssueSettings
      → IssueRequest
      → Generated
      → Tables adapter.State
      → Result IssueError IssueResult × Tables adapter.State
  unfolding prepare apply_peer emit_configs
  issue_device has_runtime o settings r g t = elim (prepare has_runtime o settings r g t) [
    | err e ↦ (err e, t)
    | ok p ↦ emit_configs o g p (apply_peer has_runtime o settings g p (add_rows settings r g p t))
  ]
