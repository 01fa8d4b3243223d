-- ===== src/Payments.antt =====
-- Payments (backend/app/services/payment_webhook_service.py): the provider's webhook, the bot's
-- confirmation, and what a completed payment changes.
pub mod Records
pub mod Effects
pub mod Webhook
pub mod Replay
pub mod Longer
pub mod Paid
pub mod Bot
mod Tests
