-- ===== src/Failover/Evaluate.antt =====
-- `evaluate_failover`. The scores are those of the balancer, with `before` on the scores alone; the
-- regions are an argument.
pub mod Maps
use vpn_suite.Prelude.{
  ℕ, String, Bool, true, false, not, ◌&&◌, ◌||◌, Option, none, some, List, [], ◌∷◌, ◌++◌, ◌==◌,
  string_eq, if◌then◌else◌, ltb, is_empty, filter, map, Dict, insert,
}
use vpn_suite.Balancer.Select.{Node, Scores, best}

-- The payload of the event `failover.candidate.selected`.
pub record Selected : Type 0 where
  pub failed_node_id : String
  pub fallback_node_id : String
  pub same_region : Bool

pub record FailoverEvaluate : Type 0 where
  pub failed_nodes : List String
  pub fallback_nodes : List String
  pub mappings : Dict String (Option String)
  pub provisioning_paused_nodes : List String

-- `==` on two looked up regions.
abbrev pub is_same : Option String → Option String → Bool
is_same none none = true
is_same none (some b) = false
is_same (some a) none = false
is_same (some a) (some b) = a == b

unfoldable pub is_failed : Scores → Node → Bool
is_failed s n = n.status == "unhealthy" || not (s.is_degraded_at_least n)

unfoldable pub is_fallback : Node → Bool
is_fallback n =
    (n.status == "healthy" || n.status == "degraded")
    && not n.is_draining
    && ltb n.peer_count n.max_peers

module _ (regions : String → Option String) where
  unfoldable pub regional : Node → List Node → List Node
  regional failed_node fallback =
      filter (λ c. is_same (regions c.node_id) (regions failed_node.node_id)) fallback

  -- `regional if regional else fallback_candidates`
  unfoldable pub failover_pool : Node → List Node → List Node
  unfolding regional
  failover_pool failed_node fallback =
      if not (is_empty (regional failed_node fallback))
      then regional failed_node fallback
      else fallback

module _ (s : Scores) (regions : String → Option String) where
  -- The loop over the failed nodes, with the events that it adds.
  unfoldable pub map_failed :
      List Node
      → List Node
      → Dict String (Option String)
      → List Selected
      → Dict String (Option String) × List Selected
  unfolding failover_pool
  map_failed fallback [] mappings events = (mappings, events)
  map_failed fallback (n ∷ ns) mappings events = elim (best s (failover_pool regions n fallback)) [
    | none ↦ map_failed fallback ns (insert n.node_id none mappings) events
    | some c ↦ map_failed fallback ns (insert n.node_id (some c.node_id) mappings) (
        events
        ++ (record {
          failed_node_id = n.node_id;
          fallback_node_id = c.node_id;
          same_region = not (is_empty (regional regions n fallback));
        }
            ∷ []))
  ]

  unfoldable pub evaluate_failover : List Node → FailoverEvaluate × List Selected
  unfolding map_failed is_failed is_fallback
  evaluate_failover nodes =
      let failed = filter (is_failed s) nodes in
      let fallback = filter is_fallback nodes in
      let (mappings, events) = map_failed fallback failed [] [] in
      (
        record {
          failed_nodes = map (λ n. n.node_id) failed;
          fallback_nodes = map (λ n. n.node_id) fallback;
          mappings = mappings;
          provisioning_paused_nodes = map (λ n. n.node_id) failed;
        },
        events,
      )
