-- ===== src/Alerts.antt =====
-- The alerts on Docker telemetry (backend/app/services/docker_alert_rule_engine.py): the rules that
-- are active, and what one pass does to the table of alerts.
pub mod Rules
pub mod Engine
pub mod Tracks
pub mod Elsewhere
pub mod Pass
mod Tests
