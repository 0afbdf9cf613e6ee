-- ===== src/Payments.antt =====
-- modules/payments: the state machine, the repository, the service.
pub mod Machine
pub mod Types
pub mod Repository
pub mod Service
pub mod Calls
pub mod Quiet
pub mod Evolution
pub mod Single
pub mod Settlement
pub mod Atomic
pub mod Calm
pub mod Settling
pub mod Webhook
pub mod SameKeys
pub mod Replay
pub mod Tests
