-- ===== src/Subscriptions.antt =====
-- app/domain/subscriptions/service.py: recurring orders, their dates and their generation.
pub mod Dates
mod Schedule
mod Orders
pub mod Advance
pub mod Served
pub mod Generated
pub mod Runs
pub mod Blocked
mod Scenarios
unfoldable pub use Schedule.*
unfoldable pub use Orders.*
