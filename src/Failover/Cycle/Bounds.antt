-- ===== src/Failover/Cycle/Bounds.antt =====
-- How much a cycle may move.
use vpn_suite.Prelude.{
  ℕ, ◌+◌, ◌≤◌, String, Bool, Option, List, [], ◌∷◌, if◌then◌else◌, map, sum, ok, ◌≡◌, arith,
  Option-cases, inl, inr,
}
use vpn_suite.Balancer.Select.{Node, Scores}
use vpn_suite.Rebalance.Node.{Watermarks}
use vpn_suite.Rebalance.Plan.{plan_rebalance}
use vpn_suite.Reconcile.Nodes.{Adapter}
use vpn_suite.Migrate.Execute.{Execution, Limits, Context, execute_rebalance_plan}
use vpn_suite.Migrate.Execute.Counts.{made, execution_balances}
use vpn_suite.Failover.Cycle.{
  AutomationRun, CycleState, Options, metadata_of, execute_if_enabled, run_automation_cycle,
}

sum-made :
    (es : List Execution)
    → sum (map (λ (e : Execution). e.succeeded) es)
        + sum (map (λ (e : Execution). e.rolled_back) es)
      ≡ sum (map made es)
sum-made [] = omega arith
sum-made (e ∷ es) = omega (arith, sum-made es)

module _ (w : Watermarks) (pinned : String → ℕ) (s : Scores) (regions : String → Option String)
    (is_below : Node → Bool) (a : Adapter) (c : Context a.State) (l : Limits) (o : Options) where
  -- A cycle that returns has executed no more migrations than a cycle may, those rolled back
  -- included, and none where the execution is not enabled.
  pub cycle_bounded :
      (topology : List Node) (st st' : CycleState a.State) (r : AutomationRun)
      → run_automation_cycle w pinned s regions is_below a c l o topology st ≡ ok (r, st')
      → r.executed_migrations + r.rollback_migrations
        ≤ (if o.execute_rebalance then l.max_executions_per_cycle else 0)
  unfolding run_automation_cycle execute_if_enabled
  cycle_bounded topology st st' r h =
      elim (Option-cases
        (plan_rebalance w o.inverted pinned o.max_moves_per_node (map metadata_of topology))) [
          | inl inverted ↦ absurd (ground arith)
          | inr (plan, planned) ↦
              let es = (execute_rebalance_plan a c l plan.moves st.fleet st.nodes).0 in
              let (balanced, total) = execution_balances a c l plan.moves st.fleet st.nodes in
              ground (arith, sum-made es, total)
        ]
