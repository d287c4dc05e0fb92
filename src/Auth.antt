-- ===== src/Auth.antt =====
-- apps/api/auth and apps/api/services/auth_service.py: who may do what, on which rows, for how long.
pub mod Scope
pub mod Principal
pub mod Tenant
pub mod Session
pub mod Gate
mod Tests
