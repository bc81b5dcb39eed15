-- ===== src/Settlements/State.antt =====
-- The tables of the settlements, and what they send.
use facilpay_api.Common.{ℕ}
pub use facilpay_api.Common.Store.{Store, write, send, emit, transaction}
use facilpay_api.Repository.{Repository}
use facilpay_api.Model.Entities.{Payment, Refund, SettlementAdjustment}
use facilpay_api.Settlements.Entities.{MerchantSettlementConfig, Settlement, PayoutDestination}

pub data SettlementEvent : Type 0 where
  settlement_created settlement_completed settlement_failed : SettlementEvent

pub data AuditAction : Type 0 where
  payout_destination_created payout_destination_verified payout_destination_updated : AuditAction

pub data Sent : Type 0 where
  -- `eventsService.emit`: merchant, event, settlement
  event : ℕ → SettlementEvent → ℕ → Sent
  -- `dispatchEventToMerchant`: merchant, event, settlement
  webhook : ℕ → SettlementEvent → ℕ → Sent
  -- the notification of a settlement: address, settlement
  mail : ℕ → ℕ → Sent
  -- the mail that verifies a destination: address, destination, token
  verification : ℕ → ℕ → ℕ → Sent
  -- an entry of the audit log: the action, and the destination
  audit : AuditAction → ℕ → Sent

pub record Ledger : Type 1 where
  pub payments : Repository Payment (λ r. r.id)
  pub refunds : Repository Refund (λ r. r.id)
  pub adjustments : Repository SettlementAdjustment (λ r. r.id)
  pub settlements : Repository Settlement (λ r. r.id)
  pub configs : Repository MerchantSettlementConfig (λ r. r.id)
  pub destinations : Repository PayoutDestination (λ r. r.id)

module _ (db : Ledger) where
  pub record Tables : Type 0 where
    pub payments : db.payments.Table
    pub refunds : db.refunds.Table
    pub adjustments : db.adjustments.Table
    pub settlements : db.settlements.Table
    pub configs : db.configs.Table
    pub destinations : db.destinations.Table

abbrev pub State : Ledger → Type 0
State db = Store (Tables db) Sent
