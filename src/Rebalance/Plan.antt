-- ===== src/Rebalance/Plan.antt =====
-- `plan_rebalance` and `_graph_rebalance_edges`: who gives, who receives, and the moves.
-- The event that `plan_rebalance` logs holds the same lists and is left out, but for
-- `pinned_limited_nodes`. The counts of pinned peers come from a query and are a parameter.
pub mod Capacity
pub mod Graph
use vpn_suite.Prelude.{
  ℕ, ◌+◌, ◌-◌, min, String, Bool, true, false, ◌&&◌, ◌||◌, not, Option, none, some, List, [], ◌∷◌,
  ◌++◌, map, Dict, insert, filter, ltb, nat_beq, string_eq, if◌then◌else◌, sum,
}
use vpn_suite.Rebalance.Node.{NodeMetadata, Watermarks, has_live_status}
use vpn_suite.Rebalance.Moves.{Move, Slots, send}

pub record RebalancePlan : Type 0 where
  pub overloaded_nodes : List String
  pub underloaded_nodes : List String
  pub total_peers_to_move : ℕ
  pub moves : List Move
  pub pinned_limited_nodes : List String

module _ (w : Watermarks) where
  open w use {is_high, is_low, target, by_load}

  unfoldable pub is_overloaded : NodeMetadata → Bool
  is_overloaded n =
      not (nat_beq n.max_peers 0)
      && is_high n.peer_count n.max_peers
      && has_live_status n
      && not n.is_draining

  unfoldable pub is_underloaded : NodeMetadata → Bool
  is_underloaded n =
      not (nat_beq n.max_peers 0)
      && is_low n.peer_count n.max_peers
      && has_live_status n
      && not n.is_draining

  -- The loop that fills `receiver_slots`.
  unfoldable pub receiver_slots_from : Slots → List NodeMetadata → Slots
  receiver_slots_from slots [] = slots
  receiver_slots_from slots (n ∷ ns) =
      receiver_slots_from (insert n.node_id (target n.max_peers - n.peer_count) slots) ns

  -- `movable` of a source, at its count of pinned peers.
  unfoldable pub movable : (String → ℕ) → NodeMetadata → ℕ
  movable pinned n = n.peer_count - pinned n.node_id - target n.max_peers

  -- The loop over the sources.
  unfoldable pub send_all : (NodeMetadata → ℕ) → List NodeMetadata → Slots → List Move × Slots
  send_all pending [] slots = ([], slots)
  send_all pending (n ∷ ns) slots =
      let (moves, slots', left) = send n.node_id (pending n) (pending n) slots in
      let (rest, slots'') = send_all pending ns slots' in (moves ++ rest, slots'')

  -- `movable <= 0 and source.peer_count > source_target`
  unfoldable pub is_pinned_limited : (String → ℕ) → NodeMetadata → Bool
  is_pinned_limited pinned n = nat_beq (movable pinned n) 0 && ltb (target n.max_peers) n.peer_count

  -- `min(movable, max_moves_per_node)`
  abbrev pub quota : (String → ℕ) → ℕ → NodeMetadata → ℕ
  quota pinned max_moves_per_node n = min (movable pinned n) max_moves_per_node

  -- `none` is the `ValueError` for a target at or above the high watermark, which is `inverted`.
  unfoldable pub plan_rebalance : Bool → (String → ℕ) → ℕ → List NodeMetadata → Option RebalancePlan
  plan_rebalance inverted pinned max_moves_per_node nodes =
      let overloaded = filter is_overloaded nodes in
      let underloaded = filter is_underloaded nodes in
      let sources = by_load overloaded in
      let moves =
        (send_all (quota pinned max_moves_per_node) sources
          (receiver_slots_from [] underloaded)).0 in
      if inverted
      then none
      else some (record {
        overloaded_nodes = map (λ n. n.node_id) overloaded;
        underloaded_nodes = map (λ n. n.node_id) underloaded;
        total_peers_to_move = sum (map (λ m. m.peers_to_move) moves);
        moves = moves;
        pinned_limited_nodes = map (λ n. n.node_id) (filter (is_pinned_limited pinned) sources);
      })

  -- The lists `overloaded` and `underloaded` of `_graph_rebalance_edges`, in one loop.
  unfoldable pub split_nodes : List NodeMetadata → List NodeMetadata × List NodeMetadata
  split_nodes [] = ([], [])
  split_nodes (n ∷ ns) =
      let (over, under) = split_nodes ns in
      if nat_beq n.max_peers 0 || n.is_draining
      then (over, under)
      else if not (has_live_status n)
      then (over, under)
      else (
        (if is_high n.peer_count n.max_peers then n ∷ over else over),
        (if is_low n.peer_count n.max_peers then n ∷ under else under),
      )

  -- The edges that the topology graph shows, by source, target and weight.
  unfoldable pub graph_rebalance_edges : ℕ → List NodeMetadata → List Move
  graph_rebalance_edges max_moves_per_node nodes =
      let (overloaded, underloaded) = split_nodes nodes in
      (send_all (λ n. min (n.peer_count - target n.max_peers) max_moves_per_node)
        (by_load overloaded) (receiver_slots_from [] underloaded)).0
