-- ===== src/Tickets.antt =====
-- modules/tickets: the types, the repository, the service, and what issuing and checking in do.
pub mod Types
pub mod Repository
pub mod Service
pub mod Calls
pub mod Evolution
pub mod Unique
pub mod Joining
pub mod Validating
pub mod Scanning
pub mod Issuing
pub mod Redeeming
pub mod Tests
