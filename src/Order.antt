-- ===== src/Order.antt =====
-- services/order/internal/app: the Order Service.
pub mod Model
pub mod Repository
pub mod World
pub mod Lifecycle
pub mod Retry
pub mod Create
pub mod Amounts
pub mod Steps
pub mod Keeping
pub mod Serving
pub mod RetryServing
pub mod Creating
pub mod Requests
pub mod Audit
pub mod Effects
pub mod Server
pub mod Clients
pub mod Composed
pub mod Replay
pub mod Retrying
pub mod Edges
pub mod Samples
mod Tests
mod EdgeTests
mod RetryTests
pub mod Handlers
pub mod PaidEvents
