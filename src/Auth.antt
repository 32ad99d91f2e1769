-- ===== src/Auth.antt =====
-- api/src/auth, api/src/mfa and api/src/rbac: who a request comes from and what it may do.
pub mod Roles
pub mod Sessions
pub mod Access
