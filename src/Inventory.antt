-- ===== src/Inventory.antt =====
-- services/inventory/internal/app: reservations and seckill admission over the memory store.
pub mod Model
pub mod Ledger
pub mod Store
pub mod Moves
pub mod Calls
pub mod Conservation
pub mod Purchases
pub mod Lifecycle
pub mod Replay
pub mod Failures
pub mod Handlers
pub mod Cancellation
pub mod Limits
pub mod Server
mod Tests
