-- ===== src/Rbac.antt =====
-- libs/rbac: roles, the city hierarchy, permissions, user context and the guards.
pub mod Roles
pub mod Cities
pub mod Permissions
pub mod UserContext
pub mod Request
pub mod Guards
pub mod TermsGuard
mod Tests
