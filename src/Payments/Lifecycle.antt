-- ===== src/Payments/Lifecycle.antt =====
-- The changes of a payment's status: `cancel`, `expirePendingPayments`, `handleWebhook` and `simulate`
-- of modules/payments/payments.service.ts.
pub mod Cancel
pub mod Expiry
pub mod Links
pub mod Webhook
pub mod Simulation
