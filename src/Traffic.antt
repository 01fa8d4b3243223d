-- ===== src/Traffic.antt =====
-- The traffic limits of the servers (backend/app/services/limits_check_service.py).
pub mod Check
pub mod Returns
mod Tests
