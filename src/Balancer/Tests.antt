-- ===== src/Balancer/Tests.antt =====
-- Two nodes, of which the emptier is selected.
use vpn_suite.Prelude.{
  IsOneOf, ◌||◌, ℕ, String, true, false, not, List, [], ◌∷◌, string_eq, ltb, all, any, is_some, ◌≡◌,
  refl, arith,
}
use vpn_suite.Balancer.Select.{
  Node, Scores, is_open, candidates, pool, best_from, best, select_node,
}
use vpn_suite.Balancer.Answers.{select_node-answers}
use vpn_suite.Balancer.Best.{IsOrdered, serves, beats, select_node-best}

abbrev node : String → ℕ → Node
node id peers = record {
  node_id = id;
  status = "healthy";
  peer_count = peers;
  max_peers = 100;
  is_draining = false;
  capabilities = "awg" ∷ [];
}

-- The fewer peers, the greater the key.
abbrev scores : Scores
scores = record {
  is_degraded_at_least = λ n. true;
  is_healthy = λ n. true;
  before = λ a b. ltb b.peer_count a.peer_count;
}

scores-IsOrdered : IsOrdered scores
scores-IsOrdered = record { asym = λ a b h. ground arith; step = λ a b c h k. ground arith }

abbrev two_nodes : List Node
two_nodes = node "n1" 90 ∷ node "n2" 10 ∷ []

select_node-best_example :
    IsOneOf (node "n2" 10) two_nodes
    × (serves scores ("awg" ∷ []) (node "n2" 10) ≡ true)
    × (all
          (λ m. not (serves scores ("awg" ∷ []) m) || not (beats scores m (node "n2" 10)))
          two_nodes
        ≡ true)
unfolding select_node best best_from pool candidates is_open
select_node-best_example =
    select_node-best scores ("awg" ∷ []) two_nodes (node "n2" 10) scores-IsOrdered refl

some_node_is_selected :
    is_some (select_node scores ("ipv6" ∷ []) two_nodes)
    ≡ any (serves scores ("ipv6" ∷ [])) two_nodes
some_node_is_selected = select_node-answers scores ("ipv6" ∷ []) two_nodes
