-- ===== src/Issue/Admin.antt =====
-- `admin_issue_peer` of backend/app/services/admin_issue_service.py. The rows of the configurations,
-- with their texts and download tokens, are left out; they are committed with the device's row before
-- the peer is put on the node.
pub mod Rotate
use vpn_suite.Prelude.{
  ℕ, String, Bool, true, false, not, ◌&&◌, ◌||◌, Option, none, some, List, [], ◌∷◌, ◌++◌, ◌==◌,
  string_eq, nat_eq, if◌then◌else◌, is_some, is_truthy, strip, or_text, text_or_none, ltb, leb,
  text_take, Dict, Result, ok, err, ◌>>=◌,
}
use vpn_suite.Payments.Records.{first}
use vpn_suite.Devices.Rows.{Device}
use vpn_suite.Config.Values.{Value}
use vpn_suite.Config.Text.Wrappers.{build_all_configs}
use vpn_suite.Reconcile.Apply.{returned, raised}
use vpn_suite.Reconcile.Nodes.{mark_applied}
use vpn_suite.Issue.Key.{Beat, Discovery, heartbeat_container_id, live_key_fetch}
use vpn_suite.Issue.Rows.{User, Subscription, Server, Tables, Runtime, IssueSettings}
use vpn_suite.Issue.Checks.{
  IssueError, no_runtime, device_limit_exceeded, subscription_invalid, server_not_available,
  peer_failed, config_refused, IssueRequest, Generated, usable_subscription, standing_devices,
}
use vpn_suite.Issue.Prepare.{
  Prepared, Outside, Wishes, gather, stored_key, raise_key, names_of, tunnel_of,
}
use vpn_suite.Issue.Peer.{ensure_verified}
use vpn_suite.Issue.Device.{is_direct, update_device, with_apply_status, add_rows}

-- What an administrator's operations raise besides.
pub data AdminError : Type 0 where
  server_draining system_operator_not_seeded device_not_found peer_not_found : AdminError
  refused : IssueError → AdminError

abbrev pub refuse {ℓ} : {A : Type ℓ} → Result IssueError A → Result AdminError A
refuse (ok a) = ok a
refuse (err e) = err (refused e)

-- The arguments: a user and a subscription, or neither.
pub record AdminRequest : Type 0 where
  pub server_id : String
  pub owner : Option (ℕ × String)
  pub client_endpoint : Option String

-- The key of a server, always from the node or what stands in for it.
unfoldable pub live_server_key :
    IssueSettings
    → ℕ
    → Option (Dict String Beat)
    → Option Discovery
    → Server
    → Result IssueError String
unfolding live_key_fetch heartbeat_container_id
live_server_key settings now redis d s =
    raise_key (
      live_key_fetch (settings.node_discovery == "agent" || settings.node_mode == "agent") now redis
        d s.id (names_of (heartbeat_container_id s.api_endpoint s.id)) (stored_key s)
        s.public_key_synced_at)
    >>= λ live. ok live.public_key

-- `_resolve_system_user_sub`; `operator_plan` is the plan with that name.
unfoldable pub resolve_system_user_sub :
    ℕ → Option String → List User → List Subscription → Result AdminError Subscription
resolve_system_user_sub now operator_plan users subs =
    elim (first (λ u. u.tg_id == 0) users) as (λ o. Result AdminError Subscription) [
      | none ↦ err system_operator_not_seeded
      | some u ↦ elim operator_plan as (λ o. Result AdminError Subscription) [
        | none ↦ err system_operator_not_seeded
        | some plan ↦
            elim (first
                (λ s.
                  s.user_id == u.id
                  && s.plan_id == plan
                  && s.status == "active"
                  && ltb now s.valid_until)
                subs)
              as (λ o. Result AdminError Subscription) [
                | none ↦ err system_operator_not_seeded
                | some s ↦ ok s
              ]
      ]
    ]

-- The subscription that the device is counted for.
unfoldable pub subscription_for :
    ℕ
    → Option String
    → AdminRequest
    → List User
    → List Subscription
    → Result AdminError Subscription
unfolding resolve_system_user_sub usable_subscription
subscription_for now operator_plan r users subs = elim r.owner [
  | none ↦ resolve_system_user_sub now operator_plan users subs
  | some (user_id, subscription_id) ↦
      elim (usable_subscription now
          (record {
            user_id = user_id;
            subscription_id = subscription_id;
            server_id = none;
            topology = none;
          })
          subs)
        as (λ o. Result AdminError Subscription) [
          | none ↦ err (refused subscription_invalid)
          | some s ↦ ok s
        ]
]

-- `client_endpoint and client_endpoint.strip()`
abbrev pub asked_endpoint : Option String → Option String
asked_endpoint e = text_or_none (strip (or_text e ""))

-- The request that the device's row records.
abbrev pub as_request : Subscription → IssueRequest
as_request s = record {
  user_id = s.user_id;
  subscription_id = s.id;
  server_id = none;
  topology = none;
}

abbrev pub active_and_open : String → List Server → Result AdminError Server
active_and_open id servers = elim (first (λ s. s.id == id && s.is_active) servers) [
  | none ↦ err (refused server_not_available)
  | some s ↦ if s.is_draining then err server_draining else ok s
]

module _ (rt : Runtime) (has_runtime : Bool) (o : Outside) (settings : IssueSettings) where
  open rt use {adapter, discovery, obfuscation_of}

  abbrev pub asked_runtime : adapter.State → Option Discovery
  asked_runtime s = if has_runtime then some (discovery s) else none

  abbrev pub asked_obfuscation : String → adapter.State → Option (Dict String Value)
  asked_obfuscation id s = if has_runtime then obfuscation_of id s else none

  -- The checks, and what is gathered, up to the configurations.
  unfoldable pub admin_prepare :
      Option String
      → AdminRequest
      → Generated
      → Tables adapter.State
      → Result AdminError (Subscription × Prepared)
  unfolding live_server_key subscription_for standing_devices gather build_all_configs
  admin_prepare operator_plan r g t =
      let profile = first (λ profile. profile.server_id == r.server_id) t.profiles in
      active_and_open r.server_id t.servers >>= λ server.
      refuse (live_server_key settings g.now o.redis (asked_runtime t.nodes) server) >>= λ key.
      if is_direct settings && not has_runtime
      then err (refused no_runtime)
      else (subscription_for g.now operator_plan r t.users t.subscriptions >>= λ sub.
          if leb sub.device_limit (standing_devices sub.id t.devices)
          then err (refused device_limit_exceeded)
          else (refuse (
                gather o settings g
                  (record {
                    client_endpoint = asked_endpoint r.client_endpoint;
                    kept_address = none;
                    tunnel = tunnel_of profile;
                  })
                  (asked_runtime t.nodes) (asked_obfuscation r.server_id t.nodes) key server profile
                  t.devices)
              >>= λ p.
                  elim (build_all_configs o.parsers p.config)
                    as (λ m. Result AdminError (Subscription × Prepared)) [
                      | err faults ↦ err (refused (config_refused faults))
                      | ok configs ↦ ok (sub, p)
                    ]))

  abbrev pub marked_error : String → Device → Device
  marked_error error d = record d {
    apply_status = some "ERROR";
    last_error = some (text_take 1024 error);
  }

  -- The peer, after the device's row is committed; whether it was created.
  unfoldable pub admin_apply :
      Generated → Prepared → Tables adapter.State → Result AdminError Bool × Tables adapter.State
  unfolding ensure_verified
  admin_apply g p t =
      let (ensured, s') =
        ensure_verified adapter p.server.id g.public_key p.allowed_ips p.preshared_key t.nodes in
      let applying = record (update_device g.device_id (with_apply_status "APPLYING") t) {
        nodes = s';
      } in
      if not (is_direct settings && has_runtime) then (ok false, t) else elim ensured [
        | returned ↦ (ok true, update_device g.device_id (mark_applied g.applied_at) applying)
        | raised e ↦ (
          err (refused (peer_failed (o.redact e))),
          update_device g.device_id (marked_error (o.redact e)) applying,
        )
      ]

  unfoldable pub admin_issue_peer :
      Option String
      → AdminRequest
      → Generated
      → Tables adapter.State
      → Result AdminError Bool × Tables adapter.State
  unfolding admin_prepare admin_apply
  admin_issue_peer operator_plan r g t = elim (admin_prepare operator_plan r g t) [
    | err e ↦ (err e, t)
    | ok (sub, p) ↦ admin_apply g p (add_rows rt settings (as_request sub) g p t)
  ]
