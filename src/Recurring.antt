-- ===== src/Recurring.antt =====
-- modules/payments/recurring-payments.service.ts: plans that are charged on a schedule.
pub mod Entities
pub mod Plans
pub mod Execution
pub mod Notifications
pub mod Limits
pub mod Charges
pub mod Kept
pub mod Reachable
