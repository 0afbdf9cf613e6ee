-- ===== src/Payments/Repository.antt =====
-- modules/payments/postgres-payments.repository.ts: the statements over the tables, with the
-- constraints and triggers of supabase/migrations that can refuse them. A row lock (`FOR UPDATE`)
-- is no step of its own: a transaction runs alone.
mod Reads
mod Idempotency
mod Inserts
mod Transitions
unfoldable pub use Reads.*
unfoldable pub use Idempotency.*
unfoldable pub use Inserts.*
unfoldable pub use Transitions.*
