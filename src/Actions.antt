-- ===== src/Actions.antt =====
-- The queue of actions for the node agents (backend/app/services/agent_action_service.py and the
-- two endpoints of backend/app/api/v1/agent.py that serve it).
pub mod Queue
pub mod Drain
pub mod Report
mod Tests
