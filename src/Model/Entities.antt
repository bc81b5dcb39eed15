-- ===== src/Model/Entities.antt =====
-- Entities of modules/payments and the entities of other modules that payments touch. Amounts are
-- integers in hundredths of the currency (the columns are `decimal(10, 2)`), times are milliseconds,
-- and identifiers and texts that the code only compares or passes on are numbers. The columns that the
-- database fills in itself (`createdAt`, `updatedAt`) are there only where the code writes or reads
-- them.
use facilpay_api.Common.{ℕ, Bool, true, false, Option, List}
use facilpay_api.Common.Int.{ℤ}

-- payment.entity.ts
pub data PaymentStatus : Type 0 where
  pending completed failed cancelled refunded partially_refunded expired partially_completed
        overdue :
      PaymentStatus

-- `===` on the enum
abbrev pub is_status : PaymentStatus → PaymentStatus → Bool
is_status PaymentStatus.pending PaymentStatus.pending = true
is_status PaymentStatus.completed PaymentStatus.completed = true
is_status PaymentStatus.failed PaymentStatus.failed = true
is_status PaymentStatus.cancelled PaymentStatus.cancelled = true
is_status PaymentStatus.refunded PaymentStatus.refunded = true
is_status PaymentStatus.partially_refunded PaymentStatus.partially_refunded = true
is_status PaymentStatus.expired PaymentStatus.expired = true
is_status PaymentStatus.partially_completed PaymentStatus.partially_completed = true
is_status PaymentStatus.overdue PaymentStatus.overdue = true
is_status _ _ = false

pub data OverpaymentPolicy : Type 0 where
  keep auto_refund : OverpaymentPolicy

-- `feeBreakdown`: 'no-fee-config', or the flat fee, the percentage and the minimum that were used
pub data FeeBreakdown : Type 0 where
  no_fee_config : FeeBreakdown
  breakdown : ℕ → ℕ → ℕ → FeeBreakdown

pub record Payment : Type 0 where
  pub id : ℕ
  pub amount : ℤ
  pub currency : ℕ
  pub status : PaymentStatus
  pub external_reference : Option ℕ
  pub description : Option ℕ
  pub callback_url : Option ℕ
  pub refunded_amount : ℤ
  pub overpaid_amount : ℤ
  pub overpayment_policy : OverpaymentPolicy
  pub fee_amount : ℤ
  pub net_amount : ℤ
  pub fee_breakdown : Option FeeBreakdown
  pub cancelled_at : Option ℕ
  pub expires_at : Option ℕ
  pub expired_at : Option ℕ
  pub merchant_id : Option ℕ
  pub customer_id : Option ℕ
  pub recurring_payment_id : Option ℕ
  pub merchant_email : Option ℕ
  pub payer_email : Option ℕ
  pub payer_name : Option ℕ
  pub payer_phone : Option ℕ
  -- `metadata.simulated`, and the rest of `metadata`
  pub simulated : Bool
  pub metadata : Option ℕ
  pub tags : List ℕ
  pub settlement_id : Option ℕ
  pub payment_link_id : Option ℕ
  pub due_date : Option ℕ
  pub reminders_enabled : Bool
  pub created_at : ℕ
  pub updated_at : ℕ

-- refund.entity.ts
pub record Refund : Type 0 where
  pub id : ℕ
  pub payment_id : ℕ
  pub amount : ℤ
  pub reason_code : ℕ
  pub reason : Option ℕ
  pub initiated_by : Option ℕ

-- settlement-adjustment.entity.ts
pub record SettlementAdjustment : Type 0 where
  pub id : ℕ
  pub settlement_id : ℕ
  pub refund_id : ℕ
  pub payment_id : ℕ
  pub merchant_id : Option ℕ
  pub amount : ℤ
  pub currency : ℕ

-- payment-split.entity.ts
pub data PaymentSplitStatus : Type 0 where
  pending completed failed : PaymentSplitStatus

abbrev pub is_pending_split : PaymentSplitStatus → Bool
is_pending_split PaymentSplitStatus.pending = true
is_pending_split PaymentSplitStatus.completed = false
is_pending_split PaymentSplitStatus.failed = false

pub record PaymentSplit : Type 0 where
  pub id : ℕ
  pub payment_id : ℕ
  pub recipient_address : ℕ
  -- in hundredths of a percent: the column is `decimal(5, 2)`
  pub percentage : ℕ
  pub amount : ℤ
  pub status : PaymentSplitStatus
  pub stellar_transaction_hash : Option ℕ
  pub failure_reason : Option ℕ

-- dispute.entity.ts
pub data DisputeStatus : Type 0 where
  open_ under_review resolved closed : DisputeStatus

pub record Dispute : Type 0 where
  pub id : ℕ
  pub payment_id : ℕ
  pub status : DisputeStatus
  pub reason : ℕ
  pub description : Option ℕ
  pub disputed_amount : Option ℤ
  pub opened_by : Option ℕ
  pub resolution_notes : Option ℕ
  pub resolved_by : Option ℕ
  pub merchant_email : Option ℕ
  pub payer_email : Option ℕ
  pub resolved_at : Option ℕ
  pub closed_at : Option ℕ

-- merchant-fee-config.entity.ts; amounts in hundredths, the percentage in hundredths of a percent
pub record MerchantFeeConfig : Type 0 where
  pub merchant_id : ℕ
  pub flat_fee : ℕ
  pub percentage_fee : ℕ
  pub min_fee : ℕ

-- payment-link.entity.ts
pub record PaymentLink : Type 0 where
  pub id : ℕ
  pub token : ℕ
  pub slug : Option ℕ
  pub amount : Option ℕ
  pub flexible_amount : Bool
  pub min_amount : Option ℕ
  pub currency : ℕ
  pub description : Option ℕ
  pub expires_at : Option ℕ
  pub is_active : Bool
  pub views : ℕ
  pub completions : ℕ
  pub max_completions : Option ℕ
  pub merchant_id : ℕ
