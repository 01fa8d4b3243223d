-- ===== src/Issue.antt =====
-- The issue of a device: backend/app/services/issue_service.py, server_live_key_service.py,
-- node_endpoint_utils.py, server_obfuscation.py, trial_service.py, and the helper of
-- admin_issue_service.py that puts a peer on its node.
pub mod Key
pub mod Rows
pub mod Endpoint
pub mod Material
pub mod Peer
pub mod Checks
pub mod Prepare
pub mod Device
pub mod Limit
pub mod Placed
pub mod Trial
pub mod Admin
mod Tests
