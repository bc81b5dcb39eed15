-- ===== src/Examples.antt =====
-- Worked examples: the theorems at concrete tables.
mod Data
mod Payments
mod Disputes
mod Idempotency
mod Recurring
mod Reminders
mod Restrictions
mod Webhooks
mod Accounts
mod Merchants
mod Creation
mod Roles
mod Settlements
mod Hooks
mod Links
mod Stellar
