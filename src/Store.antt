-- ===== src/Store.antt =====
-- The database that the repositories read and write, and the effect of a service call.
pub mod Enums
pub mod Network
pub mod Rows
pub mod Changes
pub mod Monad
pub mod Keeps
pub mod Growth
pub mod Atomic
