-- ===== src/Payments/Service.antt =====
-- modules/payments/payments.service.ts. What the service is given by its environment is a record:
-- the adapters, the generator of references, the hash of a request, the clocks of the database
-- and of the process, and whether an audit writer is bound.
mod Inputs
mod Guards
mod Creation
mod Settlement
mod Webhook
unfoldable pub use Inputs.*
unfoldable pub use Guards.*
unfoldable pub use Creation.*
unfoldable pub use Settlement.*
unfoldable pub use Webhook.*
