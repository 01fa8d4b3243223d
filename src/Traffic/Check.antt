-- ===== src/Traffic/Check.antt =====
-- `run_limits_check`. The adapter is that of the reconciliation, and its listing of a node, as far
-- as it is about traffic, an argument.
use vpn_suite.Prelude.{
  ℕ, ◌+◌, String, Bool, true, false, not, ◌&&◌, Option, none, some, List, [], ◌∷◌, ◌++◌, ◌==◌,
  string_eq, if◌then◌else◌, is_some, is_truthy, ltb, Dict, lookup, insert,
}
use vpn_suite.Devices.Rows.{Device}
use vpn_suite.Reconcile.Apply.{Outcome, returned, raised}
use vpn_suite.Reconcile.Nodes.{Adapter}
use vpn_suite.Migrate.Candidates.{PeerStats}

-- `limit_bytes` is `int(traffic_limit_gb * 1e9)`, computed in floating point, where the column is
-- set and positive; else the server is not queried.
pub record MeteredServer : Type 0 where
  pub id : String
  pub is_active : Bool
  pub limit_bytes : Option ℕ

-- The audit entry `auto_block`.
pub record Block : Type 0 where
  pub resource_id : String
  pub traffic_bytes : ℕ
  pub server_id : String
  pub node_accepted : Bool

-- `traffic_by_key`: a peer without a key is left out, and a later peer wins.
unfoldable pub traffic_by_key : Dict String ℕ → List PeerStats → Dict String ℕ
unfolding is_truthy
traffic_by_key m [] = m
traffic_by_key m (p ∷ ps) =
    traffic_by_key
      (if is_truthy p.public_key then insert p.public_key (p.transfer_rx + p.transfer_tx) m else m)
      ps

abbrev pub was_returned : Outcome → Bool
was_returned returned = true
was_returned (raised e) = false

-- What the traffic of a device is, where it is of the server, not revoked, and over the limit.
unfoldable pub excess_of : String → ℕ → Dict String ℕ → Device → Option ℕ
excess_of server_id limit traffic d =
    if d.server_id == server_id && not (is_some d.revoked_at)
    then (elim (lookup d.public_key traffic) as (λ o. Option ℕ) [
      | none ↦ none
      | some tb ↦ if ltb limit tb then some tb else none
    ])
    else none

module _ (a : Adapter) where
  -- The loop over the devices of a server.
  unfoldable pub block_each :
      String → ℕ → Dict String ℕ → List Device → a.State → List Block × a.State
  unfolding excess_of
  block_each server_id limit traffic [] s = ([], s)
  block_each server_id limit traffic (d ∷ ds) s = elim (excess_of server_id limit traffic d) [
    | none ↦ block_each server_id limit traffic ds s
    | some tb ↦
        let (removed, s') = a.remove_peer server_id d.public_key s in
        let (blocks, s'') = block_each server_id limit traffic ds s' in
        (
          record {
            resource_id = d.id;
            traffic_bytes = tb;
            server_id = server_id;
            node_accepted = was_returned removed;
          }
              ∷ blocks,
          s'',
        )
  ]

  module _ (list_stats : String → a.State → Option (List PeerStats)) where
    -- One turn of the loop over the servers: `none` where the listing raises.
    unfoldable pub check_server :
        MeteredServer → List Device → a.State → Option (List Block) × a.State
    unfolding block_each traffic_by_key
    check_server server devices s = elim server.limit_bytes [
      | none ↦ (some [], s)
      | some limit ↦
          if server.is_active
          then (elim (list_stats server.id s) as (λ o. Option (List Block) × a.State) [
            | none ↦ (none, s)
            | some peers ↦
                let (blocks, s') = block_each server.id limit (traffic_by_key [] peers) devices s in
                (some blocks, s')
          ])
          else (some [], s)
    ]

    unfoldable pub check_servers :
        List MeteredServer → List Device → a.State → Option (List Block) × a.State
    unfolding check_server
    check_servers [] devices s = (some [], s)
    check_servers (server ∷ servers) devices s =
        let (checked, s') = check_server server devices s in
        let (more, s'') = check_servers servers devices s' in
        elim checked [
          | none ↦ (none, s')
          | some blocks ↦ elim more [
            | none ↦ (none, s'')
            | some blocks' ↦ (some (blocks ++ blocks'), s'')
          ]
        ]

    -- Whether it returns, and the audit entries, which are committed at the end: a listing that
    -- raises loses those before it.
    unfoldable pub run_limits_check :
        Bool → List MeteredServer → List Device → List Block → a.State → Bool × List Block × a.State
    unfolding check_servers
    run_limits_check enabled servers devices audits s =
        let (checked, s') = check_servers servers devices s in
        if enabled
        then (elim checked as (λ o. Bool × List Block × a.State) [
          | none ↦ (false, audits, s')
          | some blocks ↦ (true, audits ++ blocks, s')
        ])
        else (true, audits, s)
