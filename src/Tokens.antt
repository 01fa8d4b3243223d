-- ===== src/Tokens.antt =====
-- What a client may use once: the links for a download (backend/app/core/one_time_download.py), and
-- the keys under which an answer is kept (backend/app/core/idempotency.py).
pub mod OneTime
pub mod Once
pub mod Idempotency
pub mod Replay
mod Tests
