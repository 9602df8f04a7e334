-- ===== src/Invoices.antt =====
-- app/domain/invoices/service.py
mod Rows
mod Totals
mod Payments
mod Reports
pub mod Recalculated
pub mod Amended
pub mod Redelivery
pub mod Settled
pub mod Numbers
mod Scenarios
pub use Rows.*
unfoldable pub use Totals.*
unfoldable pub use Payments.*
unfoldable pub use Reports.*
