-- ===== src/Failover/Sync.antt =====
-- `_sync_server_provisioning_state`. The test of a node's health against the threshold is an
-- argument.
pub mod Settles
use vpn_suite.Prelude.{
  ℕ, ◌+◌, String, Bool, true, false, not, ◌&&◌, ◌||◌, Option, none, some, List, [], ◌∷◌, ◌==◌,
  string_eq, if◌then◌else◌,
}
use vpn_suite.Balancer.Select.{Node}

pub record Server : Type 0 where
  pub id : String
  pub is_active : Bool

abbrev pub find_server : String → List Server → Option Server
find_server id [] = none
find_server id (r ∷ rs) = if r.id == id then some r else find_server id rs

unfoldable pub set_active : String → Bool → List Server → List Server
set_active id on [] = []
set_active id on (r ∷ rs) =
    (if r.id == id then record r { is_active = on } else r) ∷ set_active id on rs

module _ (is_below : Node → Bool) where
  abbrev pub is_unhealthy : Node → Bool
  is_unhealthy n = n.status == "unhealthy" || is_below n

  -- `node.status in ("healthy", "degraded", "unknown")`
  abbrev pub is_live : Node → Bool
  is_live n = n.status == "healthy" || n.status == "degraded" || n.status == "unknown"

  -- One turn of the loop: the servers paused and resumed, and the table.
  unfoldable pub sync_one : Node → List Server → ℕ × ℕ × List Server
  unfolding set_active
  sync_one n servers = elim (find_server n.node_id servers) [
    | none ↦ (0, 0, servers)
    | some server ↦
        if is_unhealthy n && server.is_active
        then (1, 0, set_active n.node_id false servers)
        else if not (is_unhealthy n) && is_live n && not server.is_active
        then (0, 1, set_active n.node_id true servers)
        else (0, 0, servers)
  ]

  unfoldable pub sync_server_provisioning_state : List Node → List Server → ℕ × ℕ × List Server
  unfolding sync_one
  sync_server_provisioning_state [] servers = (0, 0, servers)
  sync_server_provisioning_state (n ∷ ns) servers =
      let (paused, resumed, servers') = sync_one n servers in
      let (more_paused, more_resumed, servers'') = sync_server_provisioning_state ns servers' in
      (paused + more_paused, resumed + more_resumed, servers'')
