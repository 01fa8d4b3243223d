-- ===== src/Limits.antt =====
-- The rate limits (backend/app/core/rate_limit.py and backend/app/core/error_log_rate_limiter.py).
pub mod Counter
pub mod Requests
pub mod Window
pub mod Stuck
mod Tests
