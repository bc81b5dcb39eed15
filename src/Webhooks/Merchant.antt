-- ===== src/Webhooks/Merchant.antt =====
-- modules/webhooks: the endpoints that merchants register, the deliveries to them through a queue, and
-- replays of deliveries.
pub mod Entities
pub mod State
pub mod Failures
pub mod Dispatch
pub mod Endpoints
pub mod Replay
pub mod Processor
pub mod Ownership
pub mod Disabled
pub mod Redelivery
pub mod Progress
