-- ===== src/Payments.antt =====
-- Payments (apps/api/src/modules/business/payments/payments.service.ts).
mod Create
mod Approve
pub mod Allocate
pub mod Requests
unfoldable pub use Create.*
unfoldable pub use Approve.*
