-- ===== src/Devices/Handlers.antt =====
-- The handlers of one device in backend/app/api/v1/devices.py. The device's owner, its data limit and
-- the audit entry of the request are left out, and so are caches and the answers' bodies.
pub mod Settles
pub mod Placed
mod Tests
use vpn_suite.Prelude.{
  ℕ, suc, ◌+◌, String, Bool, true, false, not, ◌&&◌, ◌||◌, Option, none, some, List, [], ◌∷◌, ◌++◌,
  ◌==◌, string_eq, if◌then◌else◌, is_some, is_truthy, or_text, take, filter, contains_text,
  text_take, Result, ok, err, text_or_none,
}
use vpn_suite.Payments.Records.{first, update_where}
use vpn_suite.Actions.Queue.{Db, create_action}
use vpn_suite.Devices.Rows.{Device, is_row}
use vpn_suite.Reconcile.Peer.{PeerConfigLike}
use vpn_suite.Reconcile.Apply.{returned, raised}
use vpn_suite.Reconcile.Nodes.{Adapter, World}

-- `HTTPException`, by its status. `node_failed` carries what it tells of the adapter's exception.
pub data HttpError : Type 0 where
  bad_request not_found conflict : HttpError
  node_failed : String → HttpError

-- What the handlers read of `settings`.
pub record HandlerSettings : Type 0 where
  pub environment : String
  pub node_mode : String
  pub node_discovery : String
  pub revoke_confirm_token : String
  pub block_confirm_token : String

-- The answer's `status`.
pub data HandlerAnswer : Type 0 where
  done accepted degraded : HandlerAnswer

abbrev pub revoked : ℕ → Device → Device
revoked now d = record d { revoked_at = some now }

abbrev pub suspended : Option ℕ → Device → Device
suspended at d = record d { suspended_at = at }

abbrev pub find_device : String → List Device → Option Device
find_device id devices = first (is_row id) devices

-- What a request of several devices counts.
pub record BulkRevokeOut : Type 0 where
  pub revoked : ℕ
  pub skipped : ℕ
  pub errors : List String

-- The loop of `bulk_revoke_devices`.
unfoldable pub revoke_each : ℕ → List String → List Device → BulkRevokeOut × List Device
revoke_each now [] ds = (record { revoked = 0; skipped = 0; errors = [] }, ds)
revoke_each now (id ∷ ids) ds = elim (find_device id ds) as (λ o. BulkRevokeOut × List Device) [
  | none ↦ let (out, ds') = revoke_each now ids ds in (record out { errors = id ∷ out.errors }, ds')
  | some d ↦
      if is_some d.revoked_at
      then (let (out, ds') = revoke_each now ids ds in
          (record out { skipped = out.skipped + 1 }, ds'))
      else (let (out, ds') =
            revoke_each now ids
              (update_where (is_row id) (λ e. record e { revoked_at = some now }) ds) in
          (record out { revoked = out.revoked + 1 }, ds'))
]

-- The fields that a PATCH may set; one that is not in the body is `none`.
pub record DeviceUpdate : Type 0 where
  pub server_id : Option String
  pub allowed_ips : Option (Option String)
  pub suspended_at : Option (Option ℕ)
  pub expires_at : Option (Option ℕ)
  pub revoked_at : Option (Option ℕ)

-- `setattr` of a field that is set.
abbrev pub or_kept {ℓ} : {A : Type ℓ} → A → Option A → A
or_kept old none = old
or_kept old (some new) = new

abbrev pub patched : DeviceUpdate → Device → Device
patched u d = record d {
  server_id = or_kept d.server_id u.server_id;
  allowed_ips = or_kept d.allowed_ips u.allowed_ips;
  suspended_at = or_kept d.suspended_at u.suspended_at;
  expires_at = or_kept d.expires_at u.expires_at;
  revoked_at = or_kept d.revoked_at u.revoked_at;
}

-- The server that is set must be there.
abbrev pub knows_server : List String → Option String → Bool
knows_server servers none = true
knows_server servers (some id) = is_some (first (λ s. s == id) servers)

module _ {S : Type 0} (settings : HandlerSettings) (now : ℕ) where
  abbrev pub change_device : String → (Device → Device) → World S → World S
  change_device id change w = record w { devices = update_where (is_row id) change w.devices }

  unfoldable pub bulk_revoke_devices :
      String → List String → World S → Result HttpError BulkRevokeOut × World S
  unfolding revoke_each
  bulk_revoke_devices token ids w =
      if token == settings.revoke_confirm_token
      then (let (out, devices) = revoke_each now (take 100 ids) w.devices in
          (ok out, record w { devices = devices }))
      else (err bad_request, w)

  unfoldable pub revoke_device :
      String → String → World S → Result HttpError HandlerAnswer × World S
  revoke_device id token w =
      if token == settings.revoke_confirm_token
      then (elim (find_device id w.devices) as (λ o. Result HttpError HandlerAnswer × World S) [
        | none ↦ (err not_found, w)
        | some d ↦
            if is_some d.revoked_at
            then (err bad_request, w)
            else (ok done, change_device id (revoked now) w)
      ])
      else (err bad_request, w)

  -- `db.delete`; the token may be left out.
  unfoldable pub delete_device :
      String → Option String → World S → Result HttpError HandlerAnswer × World S
  delete_device id token w =
      if or_kept settings.revoke_confirm_token token == settings.revoke_confirm_token
      then (elim (find_device id w.devices) as (λ o. Result HttpError HandlerAnswer × World S) [
        | none ↦ (err not_found, w)
        | some d ↦ (ok done, record w { devices = filter (λ e. not (is_row id e)) w.devices })
      ])
      else (err bad_request, w)

  unfoldable pub suspend_device : String → World S → Result HttpError HandlerAnswer × World S
  suspend_device id w = elim (find_device id w.devices) [
    | none ↦ (err not_found, w)
    | some d ↦
        if is_some d.revoked_at
        then (err bad_request, w)
        else if is_some d.suspended_at
        then (ok done, w)
        else (ok done, change_device id (suspended (some now)) w)
  ]

  unfoldable pub resume_device : String → World S → Result HttpError HandlerAnswer × World S
  resume_device id w = elim (find_device id w.devices) [
    | none ↦ (err not_found, w)
    | some d ↦
        if is_some d.suspended_at
        then (ok done, change_device id (suspended none) w)
        else (ok done, w)
  ]

  unfoldable pub update_device_limits :
      String → Option (Option ℕ) → World S → Result HttpError HandlerAnswer × World S
  update_device_limits id expires w = elim (find_device id w.devices) [
    | none ↦ (err not_found, w)
    | some d ↦ if is_some d.revoked_at then (err bad_request, w) else (
      ok done,
      change_device id (λ e. record e { expires_at = or_kept e.expires_at expires }) w,
    )
  ]

  unfoldable pub update_device_fields :
      String → List String → DeviceUpdate → World S → Result HttpError HandlerAnswer × World S
  update_device_fields id servers u w = elim (find_device id w.devices) [
    | none ↦ (err not_found, w)
    | some d ↦
        if knows_server servers u.server_id
        then (ok done, change_device id (patched u) w)
        else (err bad_request, w)
  ]

-- `device.preshared_key or server.preshared_key`
abbrev pub stored_psk : Option String → Device → Option String
stored_psk server_psk d = elim (text_or_none (or_text d.preshared_key "")) [
  | some k ↦ some k
  | none ↦ text_or_none (or_text server_psk "")
]

-- The peer that is applied again.
abbrev pub synced_config : String → Device → PeerConfigLike
synced_config psk d = record {
  public_key = d.public_key;
  allowed_ips = some (or_text d.allowed_ips "10.8.1.2/32");
  preshared_key = some psk;
  persistent_keepalive = 25;
}

module _ (a : Adapter) (settings : HandlerSettings) (now : ℕ) where
  -- The revocation of `reset_device` and of an agent's block.
  abbrev pub revoke_row : String → World a.State → World a.State
  revoke_row id w = change_device settings now id (revoked now) w

  abbrev pub forced : Bool → Bool
  forced force = force || settings.node_mode == "agent"

  -- `reset_device`, of a device that is not revoked.
  unfoldable pub reset_found :
      Bool → Device → World a.State → Result HttpError HandlerAnswer × World a.State
  reset_found force d w =
      let (removed, s') = a.remove_peer d.server_id d.public_key w.nodes in
      if not (settings.node_mode == "real")
      then (ok (if settings.node_mode == "agent" then accepted else done), revoke_row d.id w)
      else elim removed [
        | returned ↦ (ok done, revoke_row d.id (record w { nodes = s' }))
        | raised e ↦
            if forced force
            then (ok degraded, revoke_row d.id (record w { nodes = s' }))
            else (err (node_failed "NODE_REMOVE_FAILED"), record w { nodes = s' })
      ]

  unfoldable pub reset_device :
      String → Bool → World a.State → Result HttpError HandlerAnswer × World a.State
  unfolding reset_found
  reset_device id force w = elim (find_device id w.devices) [
    | none ↦ (err not_found, w)
    | some d ↦ if is_some d.revoked_at then (err bad_request, w) else reset_found force d w
  ]

  -- The peer is removed, whatever that raises, and added.
  unfoldable pub reapply :
      String → Device → World a.State → Result HttpError HandlerAnswer × World a.State
  reapply psk d w =
      let (removed, s') = a.remove_peer d.server_id d.public_key w.nodes in
      let (added, s'') = a.add_peer d.server_id (synced_config psk d) s' in
      elim added [
        | returned ↦ (ok done, record w { nodes = s'' })
        | raised e ↦ (err (node_failed (text_take 200 e)), record w { nodes = s'' })
      ]

  -- `sync_device_peer`; the preshared key of the device's server stands in for its own. That the
  -- adapter's exception has another status where it says that the node is not found is left out.
  unfoldable pub sync_device_peer :
      (String → Option String)
      → String
      → World a.State
      → Result HttpError HandlerAnswer × World a.State
  unfolding reapply
  sync_device_peer server_psk id w =
      if settings.environment == "production"
      then (err conflict, w)
      else if not (settings.node_mode == "real")
      then (err bad_request, w)
      else if settings.node_discovery == "agent"
      then (err conflict, w)
      else elim (find_device id w.devices)
          as (λ o. Result HttpError HandlerAnswer × World a.State) [
            | none ↦ (err not_found, w)
            | some d ↦
                if is_some d.revoked_at
                then (err bad_request, w)
                else elim (stored_psk (server_psk d.server_id) d)
                    as (λ o. Result HttpError HandlerAnswer × World a.State) [
                      | none ↦ (err bad_request, w)
                      | some psk ↦ reapply psk d w
                    ]
          ]

  -- `block_device`: outside the mode `real` no call is made, and only the agent's mode revokes.
  unfoldable pub block_device :
      String → String → World a.State → Result HttpError HandlerAnswer × World a.State
  block_device id token w =
      if token == settings.block_confirm_token
      then (elim (find_device id w.devices)
          as (λ o. Result HttpError HandlerAnswer × World a.State) [
            | none ↦ (err not_found, w)
            | some d ↦
                let (removed, s') = a.remove_peer d.server_id d.public_key w.nodes in
                if settings.node_mode == "agent"
                then (ok accepted, revoke_row id w)
                else if settings.node_mode == "real"
                then elim removed as (λ o. Result HttpError HandlerAnswer × World a.State) [
                  | returned ↦ (ok accepted, record w { nodes = s' })
                  | raised e ↦
                      (err (node_failed "Node did not accept block"), record w { nodes = s' })
                ]
                else (err (node_failed "Node did not accept block"), w)
          ])
      else (err bad_request, w)

  -- The server of the action that `reconcile_device` queues: the device's, or any that is active.
  abbrev pub sync_target : List (String × Bool) → String → Option String
  sync_target servers server_id = elim (first (λ s. s.0 == server_id) servers) [
    | some s ↦ some server_id
    | none ↦ elim (first (λ s. s.1) servers) [ none ↦ none | some s ↦ some s.0 ]
  ]

  -- `reconcile_device`: an agent is sent an action, and a real node is synced at once. The device of
  -- an agent is one that is not revoked.
  unfoldable pub reconcile_device :
      List (String × Bool)
      → (String → Option String)
      → String
      → String
      → World a.State × Db
      → Result HttpError HandlerAnswer × World a.State × Db
  unfolding sync_device_peer create_action
  reconcile_device servers server_psk action_id id (w, db) =
      if settings.node_mode == "agent" || settings.node_discovery == "agent"
      then (elim (first (λ d. is_row id d && not (is_some d.revoked_at)) w.devices)
          as (λ o. Result HttpError HandlerAnswer × World a.State × Db) [
            | none ↦ (err not_found, w, db)
            | some d ↦
                if not (is_truthy d.server_id)
                then (err not_found, w, db)
                else elim (sync_target servers d.server_id)
                    as (λ o. Result HttpError HandlerAnswer × World a.State × Db) [
                      | none ↦ (err conflict, w, db)
                      | some server_id ↦
                          (ok done, w, (create_action action_id now server_id "sync" none db).1)
                    ]
          ])
      else if not (settings.node_mode == "real")
      then (err conflict, w, db)
      else (let (res, w') = sync_device_peer server_psk id w in (res, w', db))
