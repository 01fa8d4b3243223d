-- ===== src/Reminders.antt =====
-- The reminders that a subscription ends: backend/app/core/subscription_expiry_reminder_task.py
-- sends them, backend/app/services/retention_automation_engine.py marks them.
pub mod Rows
pub mod Task
pub mod Rules
pub mod Missed
pub mod Silenced
mod Tests
