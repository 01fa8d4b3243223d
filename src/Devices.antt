-- ===== src/Devices.antt =====
-- The devices of the customers: the handlers of backend/app/api/v1/devices.py, the handshake quality gate
-- (backend/app/core/handshake_quality_gate_task.py) and the expiry
-- (backend/app/core/device_expiry_task.py).
pub mod Rows
pub mod Gate
pub mod Expiry
pub mod Handlers
mod Tests
