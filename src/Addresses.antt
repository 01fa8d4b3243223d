-- ===== src/Addresses.antt =====
-- The tunnel addresses of new devices: backend/app/services/address_allocator.py, and
-- `allocate_next_address` of backend/app/core/config_builder.py.
pub mod Octets
pub mod Allocate
pub mod Free
mod Tests
