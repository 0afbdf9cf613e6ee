-- ===== src/Bookings.antt =====
-- modules/bookings: the actions on a booking, the repository, the service.
pub mod Transitions
pub mod Repository
pub mod Inputs
pub mod Idempotency
pub mod Inserts
pub mod Service
pub mod Cancelling
pub mod Expiring
pub mod Tests
pub mod Creation
pub mod Calls
pub mod Seats
pub mod Placing
