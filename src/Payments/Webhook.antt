-- ===== src/Payments/Webhook.antt =====
-- The event of a provider, delivered again.
pub mod Moves
pub mod Stuck
pub mod Redelivery
