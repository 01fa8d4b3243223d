-- ===== src/Reconcile/Nodes/Loop.antt =====
-- The rounds over all nodes, and the delays between them.
use vpn_suite.Prelude.{
  ℕ, zero, suc, ◌+◌, ◌*◌, ◌^◌, ◌≤◌, String, true, false, some, List, [], ◌∷◌, ◌≡◌, refl, arith, map,
  ap,
}
use vpn_suite.Reconcile.Apply.{returned, ReconciliationResult, Settings}
use vpn_suite.Reconcile.Nodes.{
  DiscoveredNode, Adapter, World, reconcile_each, reconcile_all_nodes, loop_turn,
}

pow_pos : (n : ℕ) → 1 ≤ 2 ^ n
pow_pos zero = omega arith
pow_pos (suc n) = omega (arith, pow_pos n)

pow_grows : (n m : ℕ) → m ≡ suc n → 2 ^ n ≤ 2 ^ m
pow_grows n m next = rw next (omega arith)

-- While rounds fail, the loop waits at least its interval and at most an hour, where the interval
-- is itself at most an hour, and it waits no less after one failure more; a round that runs
-- brings it back to the interval.
pub loop_backs_off :
    (interval failures : ℕ)
    → interval ≤ 3600
    → (interval ≤ (loop_turn interval false failures).1)
      × ((loop_turn interval false failures).1 ≤ 3600)
      × ((loop_turn interval false failures).1
          ≤ (loop_turn interval false (loop_turn interval false failures).0).1)
      × (loop_turn interval true failures ≡ (0, interval))
unfolding loop_turn
loop_backs_off interval failures h =
    let one : 1 ≤ 2 ^ (failures + 1) = pow_pos (failures + 1) in
    let more : 2 ^ (failures + 1) ≤ 2 ^ (failures + 1 + 1) =
      pow_grows (failures + 1) (failures + 1 + 1) (omega arith) in
    let grown : interval ≤ interval * 2 ^ (failures + 1) = grind (arith) in
    let rising : interval * 2 ^ (failures + 1) ≤ interval * 2 ^ (failures + 1 + 1) =
      grind (arith) in
    (omega (arith, grown), omega arith, omega (arith, rising), refl)

module _ (a : Adapter) (settings : Settings) (now : ℕ) where
  reconcile_each-names :
      (redact : String → String) (ns : List DiscoveredNode) (w : World a.State)
      → map
          (λ (e : String × ReconciliationResult). e.0)
          (reconcile_each a settings now redact ns w).0
        ≡ map (λ (n : DiscoveredNode). n.node_id) ns
  unfolding reconcile_each
  reconcile_each-names redact [] w = refl
  reconcile_each-names redact (n ∷ ns) w =
      ap (λ (ks : List String). n.node_id ∷ ks) (reconcile_each-names redact ns _)

  -- A run over all nodes that returns, as every run does outside production whose discovery does not
  -- raise, has one entry for each discovered node, in their order: a node that fails does not stop
  -- the others.
  pub reconcile_all_nodes-names :
      (redact : String → String) (w : World a.State)
      → (a.discover_nodes w.nodes).0 ≡ returned
      → (results : List (String × ReconciliationResult)) × ((reconcile_all_nodes a settings now
            false redact w).0
          ≡ some results)
        × (map (λ (e : String × ReconciliationResult). e.0) results
            ≡ map (λ (n : DiscoveredNode). n.node_id) (a.discover_nodes w.nodes).1)
  unfolding reconcile_all_nodes
  reconcile_all_nodes-names redact w found =
      let nodes = (a.discover_nodes w.nodes).1 in
      (
        (reconcile_each a settings now redact nodes w).0,
        ground arith,
        reconcile_each-names redact nodes w,
      )
