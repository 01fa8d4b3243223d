-- ===== src/Rebalance/Node.antt =====
-- The fields of `NodeMetadata` (backend/app/schemas/node.py) that the planner reads, and the
-- floating-point tests of a request.
use vpn_suite.Prelude.{ℕ, String, Bool, List, ◌||◌, ◌==◌, string_eq}

pub record NodeMetadata : Type 0 where
  pub node_id : String
  pub status : String
  pub peer_count : ℕ
  pub max_peers : ℕ
  pub is_draining : Bool

-- `node.status in ("healthy", "degraded", "unknown")`
unfoldable pub has_live_status : NodeMetadata → Bool
has_live_status n = n.status == "healthy" || n.status == "degraded" || n.status == "unknown"

-- What the planner computes in floating point at a request's watermarks, of a node's `peer_count`
-- and `max_peers`: `peer_count / max_peers >= high_watermark`,
-- `peer_count / max_peers < target_watermark`, `int(max_peers * target_watermark)`, and the sort
-- by `peer_count / max_peers`, largest first.
pub record Watermarks : Type 0 where
  pub is_high : ℕ → ℕ → Bool
  pub is_low : ℕ → ℕ → Bool
  pub target : ℕ → ℕ
  pub by_load : List NodeMetadata → List NodeMetadata
