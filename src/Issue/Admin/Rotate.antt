-- ===== src/Issue/Admin/Rotate.antt =====
-- `reissue_config_for_device` and `admin_rotate_peer` of backend/app/services/admin_issue_service.py.
-- The rows of the configurations, with their texts and download tokens, are left out.
pub mod Gone
pub mod Kept
pub mod Served
mod Tests
use vpn_suite.Prelude.{
  ℕ, String, Bool, true, false, not, ◌&&◌, ◌||◌, Option, none, some, List, [], ◌∷◌, ◌++◌, ◌==◌,
  string_eq, nat_eq, if◌then◌else◌, is_some, is_truthy, or_text, text_or_none, Result, ok, err,
  ◌>>=◌,
}
use vpn_suite.Payments.Records.{first, update_where}
use vpn_suite.Devices.Rows.{Device}
use vpn_suite.Config.Text.Wrappers.{build_all_configs}
use vpn_suite.Reconcile.Apply.{Outcome, returned, raised}
use vpn_suite.Reconcile.Nodes.{mark_applied}
use vpn_suite.Issue.Key.{Discovery}
use vpn_suite.Issue.Rows.{Server, ServerProfile, Tables, Runtime, IssueSettings}
use vpn_suite.Issue.Material.{dns_of}
use vpn_suite.Issue.Checks.{
  no_runtime, server_not_available, peer_failed, config_refused, params_refused, Generated,
}
use vpn_suite.Issue.Prepare.{Prepared, Outside, Wishes, gather, or_raise, params_of}
use vpn_suite.Issue.Peer.{issued_config, add_verified, ensure_device_peer_on_node}
use vpn_suite.Issue.Device.{is_direct, update_device}
use vpn_suite.Issue.Admin.{
  AdminError, server_draining, device_not_found, peer_not_found, refused, refuse, live_server_key,
  asked_runtime, asked_obfuscation,
}

-- What the checks find: the device, its server and profile, the server's key, and what the runtime
-- said of the nodes.
pub record Rotation : Type 0 where
  pub device : Device
  pub server : Server
  pub profile : Option ServerProfile
  pub key : String
  pub discovery : Option Discovery

abbrev pub is_standing : String → Device → Bool
is_standing id d = d.id == id && not (is_some d.revoked_at)

abbrev pub missing_after_rotate : String
missing_after_rotate =
    "Node peer creation verification failed after rotate (peer missing after add)"

-- The new key, address and preshared key in the device's row, and the old ones back in it.
abbrev pub with_peer : String → Prepared → Device → Device
with_peer key p d = record d {
  public_key = key;
  allowed_ips = some p.allowed_ips;
  preshared_key = some p.preshared_key;
}

abbrev pub with_old_key : Device → Device → Device
with_old_key old d = record d { public_key = old.public_key; preshared_key = old.preshared_key }

module _ (rt : Runtime) (has_runtime : Bool) (o : Outside) (settings : IssueSettings) where
  open rt use {adapter}

  -- The checks, and the conversion of the DNS servers, which all precede the removal.
  unfoldable pub rotation_of :
      String → String → Generated → Tables adapter.State → Result AdminError Rotation
  unfolding live_server_key dns_of
  rotation_of server_id peer_id g t =
      elim (first (λ d. is_standing peer_id d && d.server_id == server_id) t.devices)
        as (λ m. Result AdminError Rotation) [
          | none ↦ err peer_not_found
          | some d ↦
              elim (first (λ s. s.id == server_id) t.servers) as (λ m. Result AdminError Rotation) [
                | none ↦ err (refused server_not_available)
                | some server ↦
                    let profile = first (λ profile. profile.server_id == server_id) t.profiles in
                    refuse (
                      live_server_key settings g.now o.redis
                        (asked_runtime rt has_runtime o settings t.nodes) server)
                    >>= λ key.
                        if server.is_draining
                        then err server_draining
                        else if is_direct settings && not has_runtime
                        then err (refused no_runtime)
                        else (refuse (or_raise params_refused (dns_of (params_of profile)))
                            >>= λ dns. ok (record {
                              device = d;
                              server = server;
                              profile = profile;
                              key = key;
                              discovery = asked_runtime rt has_runtime o settings t.nodes;
                            }))
              ]
        ]

  -- The old key is taken from the node; an exception is passed over.
  unfoldable pub drop_old : Rotation → adapter.State → adapter.State
  drop_old found s =
      if is_direct settings && has_runtime
      then (adapter.remove_peer found.server.id found.device.public_key s).1
      else s

  -- What is gathered on the nodes as the removal leaves them, and the configurations.
  unfoldable pub renewed :
      Generated
      → Rotation
      → Tables adapter.State
      → Result AdminError (Prepared × (String × String × String))
  unfolding gather build_all_configs
  renewed g found t =
      refuse (
        gather o settings g
          (record {
            client_endpoint = none;
            kept_address = text_or_none (or_text found.device.allowed_ips "");
            tunnel = "0.0.0.0/0, ::/0";
          })
          found.discovery (asked_obfuscation rt has_runtime o settings found.server.id t.nodes)
          found.key found.server found.profile t.devices)
      >>= λ p.
          elim (build_all_configs o.parsers p.config)
            as (λ m. Result AdminError (Prepared × (String × String × String))) [
              | err faults ↦ err (refused (config_refused faults))
              | ok configs ↦ ok (p, configs)
            ]

  abbrev pub write_rotation :
      Generated → Rotation → Prepared → Tables adapter.State → Tables adapter.State
  write_rotation g found p t = record t {
    servers = update_where (λ s. s.id == p.server.id) (λ s. p.server) t.servers;
    devices = update_where (λ d. d.id == found.device.id) (with_peer g.public_key p) t.devices;
  }

  -- The new key on the node. Where its addition raises, the row has the old key again; the exception
  -- of the second call is not caught.
  unfoldable pub put_new :
      Generated
      → Rotation
      → Prepared
      → String × String × String
      → Tables adapter.State
      → Result AdminError (String × String × String) × Tables adapter.State
  unfolding add_verified ensure_device_peer_on_node
  put_new g found p configs t =
      let config = issued_config g.public_key p.allowed_ips (some p.preshared_key) in
      let (added, s) = add_verified adapter found.server.id config missing_after_rotate t.nodes in
      let (ensured, s') =
        ensure_device_peer_on_node adapter found.server.id g.public_key p.allowed_ips
          (some p.preshared_key) s in
      if not (is_direct settings && has_runtime) then (ok configs, t) else elim added [
        | raised e ↦ (
          err (refused (peer_failed (o.redact e))),
          record (update_device found.device.id (with_old_key found.device) t) { nodes = s },
        )
        | returned ↦ elim ensured [
          | raised e ↦ (err (refused (peer_failed e)), record t { nodes = s' })
          | returned ↦ (
            ok configs,
            record (update_device found.device.id (mark_applied g.applied_at) t) { nodes = s' },
          )
        ]
      ]

  -- The steps from the removal on.
  unfoldable pub rotate_found :
      Generated
      → Rotation
      → Tables adapter.State
      → Result AdminError (String × String × String) × Tables adapter.State
  unfolding drop_old renewed put_new
  rotate_found g found t =
      let t' = record t { nodes = drop_old found t.nodes } in
      elim (renewed g found t') [
        | err e ↦ (err e, t')
        | ok (p, configs) ↦ put_new g found p configs (write_rotation g found p t')
      ]

  -- The tables as the session has them; the caller commits them where the rotation returns.
  unfoldable pub admin_rotate_peer :
      String
      → String
      → Generated
      → Tables adapter.State
      → Result AdminError (String × String × String) × Tables adapter.State
  unfolding rotation_of rotate_found
  admin_rotate_peer server_id peer_id g t = elim (rotation_of server_id peer_id g t) [
    | err e ↦ (err e, t)
    | ok found ↦ rotate_found g found t
  ]

  unfoldable pub reissue_config_for_device :
      String
      → Generated
      → Tables adapter.State
      → Result AdminError (String × String × String) × Tables adapter.State
  unfolding admin_rotate_peer
  reissue_config_for_device id g t = elim (first (is_standing id) t.devices) [
    | none ↦ (err device_not_found, t)
    | some d ↦ admin_rotate_peer d.server_id d.id g t
  ]
