-- ===== src/Model/State.antt =====
-- The database and the outgoing effects of the payment services, and a transaction.
--
-- An effect is a call that leaves the service and whose failure the code catches and logs: an SSE
-- event, an email, a merchant webhook. The payload of a call is named by the identifier of its
-- subject.
use facilpay_api.Common.{ℕ}
pub use facilpay_api.Common.Store.{Store, write, send, emit, transaction}
use facilpay_api.Repository.{Repository}
use facilpay_api.Model.Entities.{
  PaymentStatus, Payment, Refund, SettlementAdjustment, PaymentSplit, Dispute, MerchantFeeConfig,
  PaymentLink,
}

pub data Template : Type 0 where
  merchant_payment_received payer_payment_confirmed : Template
  merchant_refund_issued payer_refund_processed : Template
  merchant_dispute_opened payer_dispute_opened : Template
  merchant_dispute_status_changed payer_dispute_status_changed : Template

pub data WebhookEvent : Type 0 where
  payment_cancelled payment_expired payment_completed payment_failed : WebhookEvent
  payment_partially_completed : WebhookEvent
  -- the number of splits and of those that failed
  payment_split_processed : ℕ → ℕ → WebhookEvent
  refund_issued refund_failed : WebhookEvent
  dispute_opened dispute_updated dispute_resolved dispute_closed : WebhookEvent

pub data Effect : Type 0 where
  -- `paymentSseService.emit(payment)`
  sse : ℕ → PaymentStatus → Effect
  -- template, recipient, subject
  email : Template → ℕ → ℕ → Effect
  -- merchant, event, subject
  webhook : ℕ → WebhookEvent → ℕ → Effect

pub record Database : Type 1 where
  pub payments : Repository Payment (λ r. r.id)
  pub refunds : Repository Refund (λ r. r.id)
  pub adjustments : Repository SettlementAdjustment (λ r. r.id)
  pub splits : Repository PaymentSplit (λ r. r.id)
  pub disputes : Repository Dispute (λ r. r.id)
  -- by the unique column `merchantId`
  pub fee_configs : Repository MerchantFeeConfig (λ r. r.merchant_id)
  pub links : Repository PaymentLink (λ r. r.id)

module _ (db : Database) where
  pub record Tables : Type 0 where
    pub payments : db.payments.Table
    pub refunds : db.refunds.Table
    pub adjustments : db.adjustments.Table
    pub splits : db.splits.Table
    pub disputes : db.disputes.Table
    pub fee_configs : db.fee_configs.Table
    pub links : db.links.Table

abbrev pub State : Database → Type 0
State db = Store (Tables db) Effect
