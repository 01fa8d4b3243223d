-- ===== src/Balancer/Select.antt =====
-- `select_node`. Its log line is left out, and `client_ip`, which the score ignores.
use vpn_suite.Prelude.{
  ℕ, String, Bool, not, ◌&&◌, ◌||◌, Option, none, some, List, [], ◌∷◌, ◌==◌, string_eq,
  if◌then◌else◌, ltb, is_empty, filter, all, member,
}

-- `capabilities` are the names that the node's dictionary maps to a true value.
pub record Node : Type 0 where
  pub node_id : String
  pub status : String
  pub peer_count : ℕ
  pub max_peers : ℕ
  pub is_draining : Bool
  pub capabilities : List String

-- What is computed in floating point: `(n.health_score or 0) >= 0.5`, the same with 0.9, and
-- `<` on the keys `(calculate_node_score(n), n.node_id)` of two nodes.
pub record Scores : Type 0 where
  pub is_degraded_at_least : Node → Bool
  pub is_healthy : Node → Bool
  pub before : Node → Node → Bool

module _ (s : Scores) where
  -- The first filter.
  unfoldable pub is_open : Node → Bool
  is_open n =
      (n.status == "healthy" || n.status == "degraded" || n.status == "unknown")
      && s.is_degraded_at_least n
      && ltb n.peer_count n.max_peers
      && not n.is_draining

  -- Both filters; without required capabilities the second keeps everything.
  unfoldable pub candidates : List String → List Node → List Node
  unfolding is_open
  candidates required nodes =
      let open_nodes = filter is_open nodes in
      if is_empty required
      then open_nodes
      else filter (λ n. all (λ c. member c n.capabilities) required) open_nodes

  -- The healthy candidates, if there are any.
  unfoldable pub pool : List Node → List Node
  pool found =
      let healthy = filter s.is_healthy found in if not (is_empty healthy) then healthy else found

  -- `max(..., key=...)`: the first of the greatest.
  unfoldable pub best_from : Node → List Node → Node
  best_from n [] = n
  best_from n (m ∷ rest) = best_from (if s.before n m then m else n) rest

  unfoldable pub best : List Node → Option Node
  unfolding best_from
  best [] = none
  best (n ∷ rest) = some (best_from n rest)

  -- `none` where `LoadBalancerError` is raised.
  unfoldable pub select_node : List String → List Node → Option Node
  unfolding candidates pool best
  select_node required nodes = best (pool (candidates required nodes))
