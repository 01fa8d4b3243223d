-- ===== src/Reconcile/Nodes.antt =====
-- `reconcile_node`, `reconcile_all_nodes` and the delays of `run_reconciliation_loop`.
-- Metrics, log lines and the duration are left out; the adapter is a parameter.
pub mod Settles
pub mod Loop
mod Tests
use vpn_suite.Prelude.{
  ℕ, suc, ◌+◌, ◌*◌, ◌^◌, min, String, Bool, true, false, not, ◌&&◌, ◌||◌, Option, none, some, List,
  [], ◌∷◌, ◌++◌, ◌==◌, string_eq, if◌then◌else◌, is_some, is_empty, is_truthy, strip, or_text,
  text_or_none, filter, take, member, map, Dict, lookup, insert, contains,
}
use vpn_suite.Devices.Rows.{Device}
use vpn_suite.Reconcile.Peer.{PeerConfigLike, DbPeer, WgPeer}
use vpn_suite.Reconcile.Diff.{ReconciliationDiff, compute_diff}
use vpn_suite.Reconcile.Apply.{
  Outcome, returned, raised, NodeRuntime, ReconciliationResult, no_result, Settings, has_drift,
  apply_diff,
}

pub record DiscoveredNode : Type 0 where
  pub node_id : String
  pub container_name : Option String

-- The adapter at all nodes. `inr` carries what a call returns, `inl` the text of its exception.
pub record Adapter : Type 1 where
  pub State : Type 0
  pub add_peer : String → PeerConfigLike → State → Outcome × State
  pub remove_peer : String → String → State → Outcome × State
  pub list_peers : String → State → Outcome × List WgPeer
  pub ensure_reply_routes : String → State → Outcome × State
  pub discover_nodes : State → Outcome × List DiscoveredNode

abbrev pub at_node : Adapter → String → NodeRuntime
at_node a node = record {
  State = a.State;
  add_peer = a.add_peer node;
  remove_peer = a.remove_peer node;
}

-- `[s for s in server_ids if s] or [node_id]`
unfoldable pub ids_of : String → List String → List String
unfolding is_truthy
ids_of node_id server_ids =
    let named = filter is_truthy server_ids in if is_empty named then node_id ∷ [] else named

-- The query for the peers that a node should have.
unfoldable pub is_wanted : List String → Device → Bool
is_wanted ids d =
    member d.server_id ids && not (is_some d.revoked_at) && not (is_some d.suspended_at)

abbrev pub db_peer_of : Device → DbPeer
db_peer_of d = record {
  public_key = d.public_key;
  allowed_ips = strip (or_text d.allowed_ips "");
  preshared_key = text_or_none (strip (or_text d.preshared_key ""));
}

-- The loop that fills `db_peers`: a row without a key is skipped.
unfoldable pub db_peers_of : List String → List Device → List DbPeer
unfolding is_wanted
db_peers_of ids [] = []
db_peers_of ids (d ∷ ds) =
    let rest = db_peers_of ids ds in
    if is_wanted ids d && is_truthy d.public_key then db_peer_of d ∷ rest else rest

-- The same loop, as it fills `pubkey_to_device_id`: a later row wins.
unfoldable pub device_ids_from : List String → Dict String String → List Device → Dict String String
unfolding is_wanted
device_ids_from ids m [] = m
device_ids_from ids m (d ∷ ds) =
    device_ids_from ids
      (if is_wanted ids d && is_truthy d.public_key then insert d.public_key d.id m else m) ds

-- `[m[pk] for pk in keys if pk in m]`
unfoldable pub known_ids : Dict String String → List String → List String
known_ids m [] = []
known_ids m (k ∷ ks) =
    let rest = known_ids m ks in elim (lookup k m) [ none ↦ rest | some id ↦ id ∷ rest ]

abbrev pub mark_applied : ℕ → Device → Device
mark_applied now d = record d {
  apply_status = some "APPLIED";
  last_applied_at = some now;
  last_error = none;
}

-- `update(Device).where(Device.id.in_(ids))`
unfoldable pub mark_all_applied : ℕ → List String → List Device → List Device
mark_all_applied now ids [] = []
mark_all_applied now ids (d ∷ ds) =
    (if member d.id ids then mark_applied now d else d) ∷ mark_all_applied now ids ds

-- How a round ends: with a result, or with the text of an exception.
pub data Ended : Type 0 where
  result : ReconciliationResult → Ended
  failed : String → Ended

-- What the audit keeps of a result: the counts and the first five errors.
abbrev pub audited : ReconciliationResult → ReconciliationResult
audited res = record res { peers_added_pubkeys = []; errors = take 5 res.errors }

-- The tables and the nodes. An audit entry holds the node and what it keeps of the result.
pub record World (S : Type 0) : Type 0 where
  pub devices : List Device
  pub audits : List (String × ReconciliationResult)
  pub nodes : S

module _ (a : Adapter) (settings : Settings) (now : ℕ) where
  -- What follows a diff that is not empty: the devices that were added again are marked, and the
  -- round is audited.
  unfoldable pub finish_round :
      String → List String → ReconciliationDiff → World a.State → Ended × World a.State
  unfolding device_ids_from known_ids mark_all_applied
  finish_round node_id ids diff w =
      let (res, s') = apply_diff (at_node a node_id) settings diff w.nodes in
      let marked = known_ids (device_ids_from ids [] w.devices) res.peers_added_pubkeys in
      (
        result res,
        record {
          devices = mark_all_applied now marked w.devices;
          audits = w.audits ++ ((node_id, audited res) ∷ []);
          nodes = s';
        },
      )

  -- The round after the listing.
  unfoldable pub round_with :
      String → List String → List WgPeer → World a.State → Ended × World a.State
  unfolding db_peers_of finish_round
  round_with node_id ids wg_peers w =
      let diff = compute_diff (db_peers_of ids w.devices) wg_peers in
      let (routed, s') = a.ensure_reply_routes node_id w.nodes in
      elim routed [
        | raised e ↦ (failed e, record w { nodes = s' })
        | returned ↦
            if has_drift diff
            then finish_round node_id ids diff (record w { nodes = s' })
            else (result no_result, record w { nodes = s' })
      ]

  unfoldable pub reconcile_node :
      Bool → String → List String → World a.State → Ended × World a.State
  unfolding round_with ids_of
  reconcile_node production node_id server_ids w =
      if production
      then (failed "Reconciliation must not run in production", w)
      else (let (listed, wg_peers) = a.list_peers node_id w.nodes in
          elim listed [
            | raised e ↦ (failed e, w)
            | returned ↦ round_with node_id (ids_of node_id server_ids) wg_peers w
          ])

  -- `candidate_ids`
  unfoldable pub candidate_ids : DiscoveredNode → List String
  unfolding is_truthy
  candidate_ids n = elim n.container_name [
    | none ↦ n.node_id ∷ []
    | some c ↦ if is_truthy c && not (n.node_id == c) then n.node_id ∷ c ∷ [] else n.node_id ∷ []
  ]

  -- The entry of a node in `results`; `redact` is `redact_for_log`.
  abbrev pub entry_of : (String → String) → Ended → ReconciliationResult
  entry_of redact (result res) = res
  entry_of redact (failed e) = record no_result { errors = redact e ∷ [] }

  unfoldable pub reconcile_each :
      (String → String)
      → List DiscoveredNode
      → World a.State
      → List (String × ReconciliationResult) × World a.State
  unfolding candidate_ids
  reconcile_each redact [] w = ([], w)
  reconcile_each redact (n ∷ ns) w =
      let (ended, w') = reconcile_node false n.node_id (candidate_ids n) w in
      let (results, w'') = reconcile_each redact ns w' in
      ((n.node_id, entry_of redact ended) ∷ results, w'')

  -- `none` where it raises: in production, or if the nodes cannot be discovered.
  unfoldable pub reconcile_all_nodes :
      Bool
      → (String → String)
      → World a.State
      → Option (List (String × ReconciliationResult)) × World a.State
  unfolding reconcile_each
  reconcile_all_nodes production redact w =
      if production
      then (none, w)
      else (let (found, nodes) = a.discover_nodes w.nodes in
          elim found [
            | raised e ↦ (none, w)
            | returned ↦ let (results, w') = reconcile_each redact nodes w in (some results, w')
          ])

-- The failures in a row after a turn of the loop, and the delay before the next.
unfoldable pub loop_turn : ℕ → Bool → ℕ → ℕ × ℕ
loop_turn interval ran failures =
    if ran then (0, interval) else (failures + 1, min (interval * 2 ^ (failures + 1)) 3600)
