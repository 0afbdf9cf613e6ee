-- ===== src/Identity.antt =====
-- modules/identity and the branch policy of modules/branches: roles, entitlements, scopes.
pub mod Identifier
pub mod Numeral
pub mod Roles
pub mod Access
pub mod Scope
pub mod Coupling
pub mod Tests
