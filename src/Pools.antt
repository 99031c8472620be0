-- ===== src/Pools.antt =====
-- app/services/runtime_pool_service.py
pub mod Select
pub mod Ends
pub mod Choice
pub mod Assign
pub mod Diagnostics
pub mod Room
