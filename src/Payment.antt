-- ===== src/Payment.antt =====
-- services/payment/internal/app: payments, their callbacks and refunds.
pub mod Model
pub mod Repository
pub mod Service
pub mod Requests
pub mod Keeping
pub mod Serving
pub mod Marking
pub mod Callbacks
pub mod Retries
pub mod Refunds
pub mod Server
pub mod OrderCalls
pub mod Composed
mod Tests
mod ComposedTests
