-- ===== src/Failover/Cycle.antt =====
-- `run_automation_cycle`: the plan, the failover, the execution and the servers' state. The event
-- that it adds carries the result, and is left out but for its severity.
pub mod Bounds
use vpn_suite.Prelude.{
  ℕ, String, Bool, true, false, not, ◌&&◌, Option, none, some, List, [], ◌∷◌, if◌then◌else◌,
  is_empty, map, sum, length, ltb, Result, ok, err,
}
use vpn_suite.Balancer.Select.{Node, Scores}
use vpn_suite.Rebalance.Node.{NodeMetadata, Watermarks}
use vpn_suite.Rebalance.Moves.{Move}
use vpn_suite.Rebalance.Plan.{plan_rebalance}
use vpn_suite.Reconcile.Nodes.{Adapter}
use vpn_suite.Migrate.Candidates.{Tracked}
use vpn_suite.Migrate.Execute.{Execution, Progress, Limits, Context, execute_rebalance_plan}
use vpn_suite.Failover.Evaluate.{Selected, evaluate_failover}
use vpn_suite.Failover.Sync.{Server, sync_server_provisioning_state}

pub data CycleError : Type 0 where
  watermarks_inverted adapter_required : CycleError

-- `AutomationRunOut`, but for the times and the topology's own figures.
pub record AutomationRun : Type 0 where
  pub failed_nodes : ℕ
  pub rebalance_moves : ℕ
  pub rebalance_peers_to_move : ℕ
  pub rebalance_execution_enabled : Bool
  pub executed_migrations : ℕ
  pub failed_migrations : ℕ
  pub rollback_migrations : ℕ
  pub rollback_failures : ℕ
  pub stop_reason : Option String
  pub executions : List Execution
  pub paused_nodes : ℕ
  pub resumed_nodes : ℕ
  pub severity : String

-- What a cycle changes: the session's devices, the nodes, the servers, and the failover's events.
pub record CycleState (S : Type 0) : Type 0 where
  pub fleet : List Tracked
  pub nodes : S
  pub servers : List Server
  pub events : List Selected

abbrev pub metadata_of : Node → NodeMetadata
metadata_of n = record {
  node_id = n.node_id;
  status = n.status;
  peer_count = n.peer_count;
  max_peers = n.max_peers;
  is_draining = n.is_draining;
}

-- The options of a cycle; `inverted` says that the target watermark is not below the high one.
pub record Options : Type 0 where
  pub inverted : Bool
  pub max_moves_per_node : ℕ
  pub execute_rebalance : Bool
  pub has_adapter : Bool
  pub sync_server_state : Bool

module _ (w : Watermarks) (pinned : String → ℕ) (s : Scores) (regions : String → Option String)
    (is_below : Node → Bool) (a : Adapter) (c : Context a.State) (l : Limits) (o : Options) where
  -- The execution, where it is enabled and there is something to move.
  unfoldable pub execute_if_enabled :
      List Move
      → List Tracked
      → a.State
      → Result CycleError (List Execution × Option String × List Tracked × a.State)
  execute_if_enabled moves fleet nodes =
      let (executions, stop_reason, p) = execute_rebalance_plan a c l moves fleet nodes in
      if o.execute_rebalance && not (is_empty moves)
      then (if o.has_adapter
          then ok (executions, stop_reason, p.fleet, p.nodes)
          else err adapter_required)
      else ok ([], none, fleet, nodes)

  unfoldable pub sync_if_enabled : List Node → List Server → ℕ × ℕ × List Server
  sync_if_enabled topology servers =
      let synced = sync_server_provisioning_state is_below topology servers in
      if o.sync_server_state then synced else (0, 0, servers)

  unfoldable pub run_automation_cycle :
      List Node → CycleState a.State → Result CycleError (AutomationRun × CycleState a.State)
  unfolding execute_if_enabled sync_if_enabled
  run_automation_cycle topology st =
      elim (plan_rebalance w o.inverted pinned o.max_moves_per_node (map metadata_of topology)) [
        | none ↦ err watermarks_inverted
        | some plan ↦
            let (failover, selected) = evaluate_failover s regions topology in
            elim (execute_if_enabled plan.moves st.fleet st.nodes) [
              | err e ↦ err e
              | ok (executions, stop_reason, fleet, nodes) ↦
                  let (paused, resumed, servers) = sync_if_enabled topology st.servers in
                  ok (
                    record {
                      failed_nodes = length failover.failed_nodes;
                      rebalance_moves = length plan.moves;
                      rebalance_peers_to_move = plan.total_peers_to_move;
                      rebalance_execution_enabled = o.execute_rebalance;
                      executed_migrations = sum (map (λ e. e.succeeded) executions);
                      failed_migrations = sum (map (λ e. e.failed) executions);
                      rollback_migrations = sum (map (λ e. e.rolled_back) executions);
                      rollback_failures = sum (map (λ e. e.rollback_failed) executions);
                      stop_reason = stop_reason;
                      executions = executions;
                      paused_nodes = paused;
                      resumed_nodes = resumed;
                      severity = if ltb 0 (length failover.failed_nodes) then "warning" else "info";
                    },
                    record { fleet = fleet; nodes = nodes; servers = servers; events = selected },
                  )
            ]
      ]
