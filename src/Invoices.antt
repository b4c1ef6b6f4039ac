-- ===== src/Invoices.antt =====
-- Invoices (apps/api/src/modules/business/invoices/invoices.service.ts).
mod Create
mod Approve
pub mod Posting
pub mod Amounts
unfoldable pub use Create.*
unfoldable pub use Approve.*
