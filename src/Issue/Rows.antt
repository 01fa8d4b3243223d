-- ===== src/Issue/Rows.antt =====
-- The rows that the issue of a device reads (backend/app/models), as far as it uses their columns,
-- and the adapter that it is given.
use vpn_suite.Prelude.{ℕ, String, Bool, Option, List, Dict, ℤ}
use vpn_suite.Config.Values.{Value}
use vpn_suite.Devices.Rows.{Device}
use vpn_suite.Reconcile.Nodes.{Adapter}
use vpn_suite.Issue.Key.{Discovery}

pub record User : Type 0 where
  pub id : ℕ
  pub tg_id : ℕ
  pub is_banned : Bool

pub record Subscription : Type 0 where
  pub id : String
  pub user_id : ℕ
  pub plan_id : String
  pub valid_from : ℕ
  pub valid_until : ℕ
  pub device_limit : ℕ
  pub status : String
  pub is_trial : Bool

-- `amnezia_h` are the columns `amnezia_h1` to `amnezia_h4`.
pub record Server : Type 0 where
  pub id : String
  pub is_active : Bool
  pub is_draining : Bool
  pub api_endpoint : Option String
  pub public_key : Option String
  pub public_key_synced_at : Option ℕ
  pub vpn_endpoint : Option String
  pub preshared_key : Option String
  pub amnezia_h : List (Option ℤ)

pub record ServerProfile : Type 0 where
  pub server_id : String
  pub request_params : Dict String Value
  pub mtu : Option ℤ
  pub disable_ipv6_on_unstable_route : Bool

-- The profiles stand in the order of their creation. `issues` are the rows of `ProfileIssue`, by
-- their device.
pub record Tables (S : Type 0) : Type 0 where
  pub users : List User
  pub subscriptions : List Subscription
  pub servers : List Server
  pub profiles : List ServerProfile
  pub devices : List Device
  pub issues : List String
  pub nodes : S

-- The runtime adapter: its calls for peers, what it answers of the nodes, and the parameters that it
-- reads from a node, where `none` is also an adapter that cannot, and one that raises.
pub record Runtime : Type 1 where
  pub adapter : Adapter
  pub discovery : adapter.State → Discovery
  pub obfuscation_of : String → adapter.State → Option (Dict String Value)

-- `settings`
pub record IssueSettings : Type 0 where
  pub node_mode : String
  pub node_discovery : String
  pub vpn_default_host : Option String
  pub issue_fallback_on_peer_failure : Bool
