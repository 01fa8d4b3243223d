-- ===== src/Rebalance.antt =====
-- The rebalance planner of the control plane (backend/app/services/control_plane_service.py:
-- `plan_rebalance` and `_graph_rebalance_edges`).
pub mod Node
pub mod Moves
pub mod Plan
mod Tests
