-- ===== src/Payroll.antt =====
-- Payroll runs (apps/api/src/modules/business/payroll/payroll.service.ts).
mod Create
mod Approve
pub mod Amounts
unfoldable pub use Create.*
unfoldable pub use Approve.*
