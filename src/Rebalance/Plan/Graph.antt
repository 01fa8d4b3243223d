-- ===== src/Rebalance/Plan/Graph.antt =====
-- The edges of the topology graph are the moves of a plan without pinned peers.
use vpn_suite.Prelude.{
  ℕ, ◌-◌, min, false, some, List, [], ◌∷◌, filter, ◌≡◌, refl, arith, ◌∙◌, ap, sym,
}
use mathlib.Core.Path.{fun_ext}
use vpn_suite.Rebalance.Plan.Capacity.{moves_of_plan}
use vpn_suite.Rebalance.Node.{NodeMetadata, Watermarks}
use vpn_suite.Rebalance.Plan.{
  is_overloaded, is_underloaded, receiver_slots_from, movable, quota, send_all, RebalancePlan,
  plan_rebalance, split_nodes, graph_rebalance_edges,
}

module _ (w : Watermarks) where
  split_nodes-filter :
      (ns : List NodeMetadata)
      → split_nodes w ns ≡ (filter (is_overloaded w) ns, filter (is_underloaded w) ns)
  unfolding split_nodes is_overloaded is_underloaded
  split_nodes-filter [] = refl
  split_nodes-filter (n ∷ ns) = ground (arith, split_nodes-filter ns)

  unpinned :
      (max_moves : ℕ) (n : NodeMetadata)
      → quota w (λ _. 0) max_moves n ≡ min (n.peer_count - w.target n.max_peers) max_moves
  unfolding movable
  unpinned max_moves n = omega arith

  -- With no pinned peers and watermarks in order, the planner's moves are the edges that the graph
  -- draws for the same topology.
  pub graph-eq-plan :
      (max_moves : ℕ) (nodes : List NodeMetadata) (plan : RebalancePlan)
      → plan_rebalance w false (λ _. 0) max_moves nodes ≡ some plan
      → plan.moves ≡ graph_rebalance_edges w max_moves nodes
  unfolding plan_rebalance graph_rebalance_edges
  graph-eq-plan max_moves nodes plan h =
      let lists = split_nodes-filter nodes in
      let over = filter (is_overloaded w) nodes in
      let under = filter (is_underloaded w) nodes in
      moves_of_plan w false (λ _. 0) max_moves nodes plan h
      ∙ ap
          (λ (p : NodeMetadata → ℕ).
            (send_all w p (w.by_load over) (receiver_slots_from w [] under)).0)
          (fun_ext (unpinned max_moves))
      ∙ ap
          (λ (p : List NodeMetadata × List NodeMetadata).
            (send_all w (λ n. min (n.peer_count - w.target n.max_peers) max_moves) (w.by_load p.0)
              (receiver_slots_from w [] p.1)).0)
          (sym lists)
