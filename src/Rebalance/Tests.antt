-- ===== src/Rebalance/Tests.antt =====
-- A topology with one overloaded node and two receivers, at watermarks of 85 and 65 percent.
use vpn_suite.Prelude.{
  ℕ, ◌*◌, ◌/◌, ◌≤◌, ◌≡◌, refl, false, List, [], ◌∷◌, none, some, arith, String, string_eq, ltb, leb,
  ◌⊎◌, All, filter,
}
use vpn_suite.Rebalance.Node.{NodeMetadata, Watermarks, has_live_status}
use vpn_suite.Rebalance.Moves.{Move, Slots, receivers, max_slots, send}
use vpn_suite.Rebalance.Moves.Room.{received, send-ends}
use vpn_suite.Rebalance.Plan.{
  is_overloaded, is_underloaded, receiver_slots_from, movable, quota, send_all, is_pinned_limited,
  RebalancePlan, plan_rebalance, graph_rebalance_edges,
}
use vpn_suite.Rebalance.Plan.Capacity.{
  sent, find_node, room_below, quota_of, IsMove, plan_rebalance-capacity, plan_rebalance-sources,
}
use vpn_suite.Rebalance.Plan.Graph.{graph-eq-plan}

abbrev marks : Watermarks
marks = record {
  is_high = λ p m. leb (85 * m) (100 * p);
  is_low = λ p m. ltb (100 * p) (65 * m);
  target = λ m. 65 * m / 100;
  by_load = λ ns. ns;
}

abbrev at : String → ℕ → NodeMetadata
at name peers = record {
  node_id = name;
  status = "healthy";
  peer_count = peers;
  max_peers = 100;
  is_draining = false;
}

abbrev nodes : List NodeMetadata
nodes = at "a" 95 ∷ at "b" 50 ∷ at "c" 60 ∷ []

abbrev no_pins : String → ℕ
no_pins k = 0

abbrev moved : String → ℕ → Move
moved target n = record { source_node_id = "a"; target_node_id = target; peers_to_move = n }

abbrev plan : RebalancePlan
plan = record {
  overloaded_nodes = "a" ∷ [];
  underloaded_nodes = "b" ∷ "c" ∷ [];
  total_peers_to_move = 20;
  moves = moved "b" 15 ∷ moved "c" 5 ∷ [];
  pinned_limited_nodes = [];
}

planned : plan_rebalance marks false no_pins 200 nodes ≡ some plan
unfolding plan_rebalance is_overloaded is_underloaded has_live_status receiver_slots_from movable
    send_all send receivers max_slots is_pinned_limited
planned = refl

plan_rebalance-capacity_example :
    received "c" plan.moves ≤ room_below marks (find_node "c" (filter (is_underloaded marks) nodes))
plan_rebalance-capacity_example =
    plan_rebalance-capacity marks false no_pins 200 nodes plan planned "c"

sources_are_kept :
    (sent "a" plan.moves
      ≤ quota_of marks (quota marks no_pins 200) "a" (filter (is_overloaded marks) nodes))
    × All IsMove plan.moves
sources_are_kept = plan_rebalance-sources marks false no_pins 200 nodes plan planned "a"

graph-eq-plan_example : plan.moves ≡ graph_rebalance_edges marks 200 nodes
graph-eq-plan_example = graph-eq-plan marks 200 nodes plan planned

abbrev slots : Slots
slots = ("b", 15) ∷ ("c", 5) ∷ []

send-ends_example :
    let (moves, slots', left) = send "a" 30 30 slots in
    (left ≡ 0) ⊎ (max_slots (receivers "a" slots') ≡ none)
send-ends_example = send-ends "a" 30 30 slots (refl, (refl, tt)) (omega arith)
