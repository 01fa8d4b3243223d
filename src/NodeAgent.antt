-- ===== src/NodeAgent.antt =====
-- The reconciliation of the node agent (node-agent/agent.py), which applies the control plane's
-- desired peers to one interface by commands in the node's container.
pub mod Keys
pub mod Plan
pub mod Cycle
mod Tests
