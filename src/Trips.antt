-- ===== src/Trips.antt =====
-- modules/trips: the actions on a trip, the repository, the service, and what any calls keep.
pub mod Transitions
pub mod Repository
pub mod Service
pub mod Calls
pub mod Schedule
pub mod Timetable
pub mod Instants
pub mod Moving
pub mod Editing
pub mod Tests
