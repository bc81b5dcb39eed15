-- ===== src/Webhooks.antt =====
-- Webhooks: the signatures of those that come in, and the delivery of those that go out.
pub mod Signature
pub mod Delivery
pub mod Merchant
