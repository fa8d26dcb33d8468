-- ===== src/Contracts.antt =====
-- shared/contracts: the event envelope and the payloads that the services exchange.
pub mod Events
pub mod Payloads
pub mod Decode
pub mod Produced
mod Tests
