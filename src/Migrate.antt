-- ===== src/Migrate.antt =====
-- Moving devices between nodes: backend/app/services/migrate_service.py, and
-- `execute_rebalance_plan` of backend/app/services/control_plane_service.py.
pub mod Peer
pub mod Moves
pub mod Candidates
pub mod Target
pub mod Execute
mod Tests
