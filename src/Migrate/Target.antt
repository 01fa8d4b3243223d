-- ===== src/Migrate/Target.antt =====
-- `resolve_target_node`.
use vpn_suite.Prelude.{
  String, ◌&&◌, Option, none, some, List, [], ◌==◌, string_eq, if◌then◌else◌, is_truthy, any,
  Result, ok, err,
}
use vpn_suite.Balancer.Select.{Node, Scores, select_node}
use vpn_suite.Failover.Sync.{Server}

pub data TargetError : Type 0 where
  not_found_or_inactive no_suitable_node : TargetError

-- A target that is given must be an active server; else the balancer selects one.
unfoldable pub resolve_target_node :
    Scores → List Server → List Node → Option String → Result TargetError String
unfolding is_truthy
resolve_target_node s servers topology target =
    let selected = elim (select_node s [] topology) as (λ o. Result TargetError String) [
      | none ↦ err no_suitable_node
      | some n ↦ ok n.node_id
    ] in
    elim target [
      | none ↦ selected
      | some id ↦
          if is_truthy id
          then (if any (λ r. r.id == id && r.is_active) servers
              then ok id
              else err not_found_or_inactive)
          else selected
    ]
