-- ===== src/Config.antt =====
-- The client configurations (backend/app/core/config_builder.py).
pub mod Values
pub mod Obfuscation
pub mod Text
mod Tests
