-- ===== src/Issue/Checks.antt =====
-- The checks with which `issue_device` starts, and the selection of the server.
use vpn_suite.Prelude.{
  ℕ, String, Bool, not, ◌&&◌, Option, none, some, List, [], ◌==◌, string_eq, nat_eq, if◌then◌else◌,
  is_some, ltb, leb, length, filter, Result, ok, err,
}
use vpn_suite.Payments.Records.{first}
use vpn_suite.Devices.Rows.{Device}
use vpn_suite.Balancer.Select.{Node, Scores, select_node}
use vpn_suite.Config.Text.Fields.{Fault}
use vpn_suite.Issue.Key.{KeyError}
use vpn_suite.Issue.Rows.{User, Subscription, Server}

-- `params_refused` is the `ValueError` or `TypeError` of a conversion.
pub data IssueError : Type 0 where
  user_not_found user_banned subscription_invalid device_limit_exceeded no_node server_required
        server_not_available server_public_key_required params_refused no_free_address no_runtime :
      IssueError
  not_synced : KeyError → IssueError
  peer_failed : String → IssueError
  config_refused : List Fault → IssueError

-- The arguments. `topology` are the nodes, where `get_topology` is given.
pub record IssueRequest : Type 0 where
  pub user_id : ℕ
  pub subscription_id : String
  pub server_id : Option String
  pub topology : Option (List Node)

-- The times of the start and of the peer's success, and what is generated.
pub record Generated : Type 0 where
  pub now : ℕ
  pub applied_at : ℕ
  pub device_id : String
  pub private_key : String
  pub public_key : String
  pub preshared_key : String

pub record IssueResult : Type 0 where
  pub device_id : String
  pub private_key : String
  pub configs : String × String × String
  pub peer_created : Bool

-- The query for the subscription, which is locked.
unfoldable pub usable_subscription : ℕ → IssueRequest → List Subscription → Option Subscription
usable_subscription now r subs =
    first
      (λ s.
        s.id == r.subscription_id
        && s.user_id == r.user_id
        && s.status == "active"
        && ltb now s.valid_until)
      subs

-- The devices of a subscription that are not revoked.
unfoldable pub standing_devices : String → List Device → ℕ
standing_devices subscription_id devices =
    length
      (filter (λ d. d.subscription_id == subscription_id && not (is_some d.revoked_at)) devices)

-- The checks of the user and of the subscription.
unfoldable pub check_subscription :
    ℕ → IssueRequest → List User → List Subscription → List Device → Result IssueError Subscription
unfolding usable_subscription standing_devices
check_subscription now r users subs devices =
    elim (first (λ u. u.id == r.user_id) users) as (λ o. Result IssueError Subscription) [
      | none ↦ err user_not_found
      | some u ↦
          if u.is_banned
          then err user_banned
          else elim (usable_subscription now r subs) as (λ o. Result IssueError Subscription) [
            | none ↦ err subscription_invalid
            | some s ↦
                if leb s.device_limit (standing_devices r.subscription_id devices)
                then err device_limit_exceeded
                else ok s
          ]
    ]

-- The server that is asked for, or that the balancer selects.
unfoldable pub choose_server : Scores → IssueRequest → Result IssueError String
choose_server scores r = elim r.server_id [
  | some id ↦ ok id
  | none ↦ elim r.topology [
    | none ↦ err server_required
    | some nodes ↦ elim (select_node scores [] nodes) [ none ↦ err no_node | some n ↦ ok n.node_id ]
  ]
]

unfoldable pub active_server : String → List Server → Result IssueError Server
active_server id servers = elim (first (λ s. s.id == id && s.is_active) servers) [
  | none ↦ err server_not_available
  | some s ↦ ok s
]
