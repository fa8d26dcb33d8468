-- ===== src/Fulfillment.antt =====
-- services/fulfillment/internal/app: shipments.
pub mod Model
pub mod Repository
pub mod Service
pub mod Server
pub mod Keeping
pub mod Serving
pub mod Retries
pub mod Edges
mod Tests
