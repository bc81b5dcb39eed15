-- ===== src/Settlements/Entities.antt =====
-- modules/settlements/entities. Amounts are hundredths (the columns are `decimal(12, 2)`).
use facilpay_api.Common.{ℕ, Bool, true, false, Option, List}
use facilpay_api.Common.Int.{ℤ}

pub data SettlementSchedule : Type 0 where
  daily weekly monthly : SettlementSchedule

abbrev pub is_schedule : SettlementSchedule → SettlementSchedule → Bool
is_schedule SettlementSchedule.daily SettlementSchedule.daily = true
is_schedule SettlementSchedule.weekly SettlementSchedule.weekly = true
is_schedule SettlementSchedule.monthly SettlementSchedule.monthly = true
is_schedule _ _ = false

pub data ReserveStatus : Type 0 where
  held released forfeited : ReserveStatus

abbrev pub is_held : ReserveStatus → Bool
is_held ReserveStatus.held = true
is_held ReserveStatus.released = false
is_held ReserveStatus.forfeited = false

pub record MerchantSettlementConfig : Type 0 where
  pub id : ℕ
  pub user_id : ℕ
  pub schedule : SettlementSchedule
  pub currency : ℕ
  pub destination_id : Option ℕ
  pub last_settled_at : Option ℕ
  -- in percent
  pub reserve_percent : ℕ
  pub reserve_days : ℕ
  pub total_reserved_amount : ℤ

pub data SettlementStatus : Type 0 where
  pending completed failed : SettlementStatus

pub record Settlement : Type 0 where
  pub id : ℕ
  pub merchant_id : ℕ
  pub schedule : SettlementSchedule
  pub total_amount : ℤ
  pub reserved_amount : ℤ
  pub net_amount : ℤ
  pub currency : ℕ
  pub payout_destination_id : Option ℕ
  pub transaction_hash : Option ℕ
  pub payment_ids : List ℕ
  pub status : SettlementStatus
  pub stellar_transaction_hash : Option ℕ
  pub failure_reason : Option ℕ
  pub processed_at : ℕ
  pub reserved_release_at : Option ℕ
  pub reserve_status : ReserveStatus
  pub released_amount : ℤ

pub record PayoutDestination : Type 0 where
  pub id : ℕ
  pub merchant_id : ℕ
  pub label : ℕ
  pub stellar_address : ℕ
  pub asset_code : ℕ
  pub is_default : Bool
  pub verified_at : Option ℕ
  pub cooling_off_until : Option ℕ
  pub verification_token_hash : Option ℕ
  pub verification_token_expires_at : Option ℕ
