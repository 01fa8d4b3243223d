-- ===== src/Reconcile.antt =====
-- The reconciliation engine of the control plane (backend/app/services/reconciliation_engine.py):
-- the peers that the database wants on a node against the peers that the node reports.
pub mod Peer
pub mod Diff
pub mod Apply
pub mod Round
pub mod Nodes
mod Tests
