-- ===== src/Messaging.antt =====
-- shared/platform/messaging: the inbox of a consumer and the outbox of a service in memory, with their
-- leases, the publishing of the outbox, and the retry delay.
pub mod Inbox
pub mod Delays
pub mod Leases
pub mod Processed
pub mod Outbox
pub mod Worker
pub mod Delivery
pub mod Keys
pub mod Publishing
pub mod Sending
pub mod Batches
mod Tests
mod OutboxTests
