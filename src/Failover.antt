-- ===== src/Failover.antt =====
-- The control plane's answer to failed nodes, and its cycle
-- (backend/app/services/control_plane_service.py).
pub mod Evaluate
pub mod Sync
pub mod Cycle
mod Tests
