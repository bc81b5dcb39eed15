-- ===== src/Payments.antt =====
-- modules/payments/payments.service.ts
pub mod Creation
pub mod Refund
pub mod Reminders
pub mod Splits
pub mod Stream
pub mod Fee
pub mod Lifecycle
