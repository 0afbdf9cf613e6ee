-- ===== src/System.antt =====
-- The calls of the booking, payment, ticket and trip services on one database.
pub mod Calls
pub mod Apart
pub mod Preserving
pub mod Soundness
pub mod Rollback
pub mod Tests
