-- ===== src/Balancer.antt =====
-- The choice of a node for a new peer (backend/app/services/load_balancer.py).
pub mod Select
pub mod Best
pub mod Answers
mod Tests
