-- ===== src/Pricing.antt =====
-- app/domain/pricing/estimator.py: the estimate of a cleaning.
mod Rows
mod Estimator
pub mod Lookup
pub mod Coverage
mod Scenarios
pub use Rows.*
unfoldable pub use Estimator.*
